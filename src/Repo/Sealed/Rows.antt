-- ===== src/Repo/Sealed/Rows.antt =====
-- The rows that `Put` of internal/repo/db/sealed_repo.go writes for data of the right checksum.
use Prim.Native.String.{◌++◌ as str_append}
use gophkeeper.Base.{
  ℕ, ◌+◌, ◌≡◌, refl, ap, ◌∙◌, true, false, none, some, [], ◌∷◌, ◌++◌, length, bytes_eq, arith, ◌==◌,
}
use gophkeeper.Base.Go.{Error, ok, err, pos, wrap, ℤ}
use gophkeeper.Model
use gophkeeper.Model.{Bytes, ObjectLocator}
use gophkeeper.Database.{Uuid, Database, Server, any, SecretBlob, ChunkManifest}
use gophkeeper.Database.Tables.{any_last}
use gophkeeper.Sqlc
use gophkeeper.Sqlc.{has_object, same_chunk, owns_blob, chunk_checked}
use gophkeeper.Retry.{is_retryable_error}
use gophkeeper.Retry.Bounds.{with_retry_err}
use gophkeeper.Repo.Sealed.{put, put_logic, put_tx, sleep, located, commit_rollback}
use gophkeeper.Repo.Sealed.Checksum.{begun, put_tx_one, put_of_tx}

module _ (srv : Server) (generate_sha256 : Bytes → Bytes) where
  -- the blob's row, under the UUID that the server draws for the second statement
  abbrev pub new_blob : Uuid → Bytes → Database → SecretBlob
  new_blob id r d = record {
    id = srv.gen_random_uuid (d.rounds + 1 + 1);
    objects_id = id;
    sealed = r;
  }

  abbrev pub new_chunk : Uuid → Bytes → Database → ChunkManifest
  new_chunk id r d = record {
    objects_id = id;
    blob_id = srv.gen_random_uuid (d.rounds + 1 + 1);
    chunk_index = pos 0;
    length = pos (length r);
  }

  module _ (f : (k : ℕ) → srv.fault k ≡ none) where
    insert_blob_ok :
        (id : Uuid) (r : Bytes) (d : Database)
        → has_object id d ≡ true
        → any (λ x. x.id == srv.gen_random_uuid (d.rounds + 1)) d.secret_blobs ≡ false
        → Sqlc.insert_blob srv id r d ≡ (
          ok (srv.gen_random_uuid (d.rounds + 1)),
          record d {
            rounds = d.rounds + 1;
            secret_blobs =
                d.secret_blobs
                ++ record { id = srv.gen_random_uuid (d.rounds + 1); objects_id = id; sealed = r }
                  ∷ [];
          },
        )
    unfolding Sqlc.insert_blob
    insert_blob_ok id r d found free = rw (f d.rounds, found, free)

    put_manifest_ok :
        (c : ChunkManifest) (d : Database)
        → chunk_checked c.chunk_index c.length ≡ true
        → any (same_chunk c) d.chunk_manifest ≡ false
        → any (owns_blob c) d.secret_blobs ≡ true
        → Sqlc.put_manifest srv c d
          ≡ (ok tt, record d { rounds = d.rounds + 1; chunk_manifest = d.chunk_manifest ++ c ∷ [] })
    unfolding Sqlc.put_manifest
    put_manifest_ok c d checked free owned = rw (f d.rounds, checked, free, owned)

  -- Where the server answers: data of the right SHA-256, for an object that exists and has no
  -- chunks yet, is stored whole as one blob and one manifest row of index 0 and its length, and
  -- nothing else changes. The UUID of the blob must be new.
  pub put_stores_chunk :
      (m : Model.Metadata) (b : ℕ) (bs sha : Bytes) (id : Uuid) (d : Database)
      → let r = b ∷ bs in
        ((k : ℕ) → srv.fault k ≡ none)
        → srv.parse_uuid m.id ≡ some id
        → bytes_eq (generate_sha256 r) sha ≡ true
        → has_object id d ≡ true
        → any (λ x. x.id == srv.gen_random_uuid (d.rounds + 1 + 1)) d.secret_blobs ≡ false
        → any (same_chunk (new_chunk id r d)) d.chunk_manifest ≡ false
        → put srv generate_sha256 m r (pos (length r)) sha d ≡ (
          ok (str_append "pg://" (srv.uuid_string id)),
          record d {
            secret_blobs = d.secret_blobs ++ new_blob id r d ∷ [];
            chunk_manifest = d.chunk_manifest ++ new_chunk id r d ∷ [];
            rounds = d.rounds + 1 + 1 + 1 + 1;
          },
        )
  put_stores_chunk m b bs sha id d f p good found blob_free chunk_free =
      let r = b ∷ bs in
      let d₁ : Database = record d { rounds = d.rounds + 1 } in
      let d₂ : Database = record d₁ {
        rounds = d₁.rounds + 1;
        secret_blobs = d.secret_blobs ++ new_blob id r d ∷ [];
      } in
      let d₃ : Database = record d₂ {
        rounds = d₂.rounds + 1;
        chunk_manifest = d.chunk_manifest ++ new_chunk id r d ∷ [];
      } in
      put_of_tx srv generate_sha256 m (pos (length r)) r sha id d
        (record d₃ { rounds = d₃.rounds + 1 }) [] (srv.uuid_string id) (f d.rounds) p
        (put_tx_one srv generate_sha256 b bs id sha d₁ (ok tt)
            (record { tx = record (begun srv generate_sha256 d₁) { db = d₃ }; rest = [] })
            (rw (good, insert_blob_ok f id r d₁ found blob_free)
              (rw (
                put_manifest_ok f (new_chunk id r d) d₂ refl chunk_free (
                  any_last (owns_blob (new_chunk id r d)) d.secret_blobs (new_blob id r d)
                    (ground arith)))))
            tt
          ∙ rw (f d₃.rounds))

  insert_blob_orphan :
      (id : Uuid) (r : Bytes) (d : Database)
      → srv.fault d.rounds ≡ none
      → has_object id d ≡ false
      → any (λ x. x.id == srv.gen_random_uuid (d.rounds + 1)) d.secret_blobs ≡ false
      → Sqlc.insert_blob srv id r d
        ≡ (err Sqlc.foreign_key_violation, record d { rounds = d.rounds + 1 })
  unfolding Sqlc.insert_blob
  insert_blob_orphan id r d f missing free = rw (f, missing, free)

  put_failed_tx :
      (m : Model.Metadata) (size : ℤ) (r sha : Bytes) (id : Uuid) (d t : Database) (rest : Bytes)
      (c : Error)
      → srv.fault d.rounds ≡ none
      → srv.parse_uuid m.id ≡ some id
      → put_tx srv generate_sha256 size id sha
          (record { db = record d { rounds = d.rounds + 1 }; rest = r })
        ≡ (err c, record { db = t; rest = rest })
      → is_retryable_error (wrap "commit" c) ≡ false
      → (e : Error) × (put srv generate_sha256 m r size sha d ≡ (err e, t))
  unfolding put
  put_failed_tx m size r sha id d t rest c f p e final =
      let (msg, q) =
        with_retry_err (sleep srv generate_sha256) (put_logic srv generate_sha256 m size sha) 0
          (record { db = d; rest = r }) (record { db = t; rest = rest }) (wrap "commit" c)
          (rw (f, p) (rw e)) final in
      (wrap msg (wrap "commit" c), ap (located srv generate_sha256) q)

  -- Where the server answers, `Put` of data of the right SHA-256 whose metadata's identifier names
  -- no object fails, and no row has been written: the object must be there before its data.
  pub put_needs_object :
      (m : Model.Metadata) (b : ℕ) (bs sha : Bytes) (id : Uuid) (d : Database)
      → ((k : ℕ) → srv.fault k ≡ none)
      → srv.parse_uuid m.id ≡ some id
      → bytes_eq (generate_sha256 (b ∷ bs)) sha ≡ true
      → has_object id d ≡ false
      → any (λ x. x.id == srv.gen_random_uuid (d.rounds + 1 + 1)) d.secret_blobs ≡ false
      → (e : Error) × (put srv generate_sha256 m (b ∷ bs) (pos (length (b ∷ bs))) sha d
          ≡ (err e, record d { rounds = d.rounds + 1 + 1 + 1 }))
  unfolding is_retryable_error
  put_needs_object m b bs sha id d f p good missing free =
      let r = b ∷ bs in
      let d₁ : Database = record d { rounds = d.rounds + 1 } in
      let d₂ : Database = record d₁ { rounds = d₁.rounds + 1 } in
      put_failed_tx m (pos (length r)) r sha id d (record d₂ { rounds = d₂.rounds + 1 }) []
        commit_rollback (f d.rounds) p
        (put_tx_one srv generate_sha256 b bs id sha d₁
            (err (wrap "InsertBlob" Sqlc.foreign_key_violation))
            (record {
              tx = record (begun srv generate_sha256 d₁) { db = d₂; aborted = true };
              rest = [];
            })
            (rw (good, insert_blob_orphan id r d₁ (f d₁.rounds) missing free)) tt
          ∙ rw (f d₂.rounds))
        refl
