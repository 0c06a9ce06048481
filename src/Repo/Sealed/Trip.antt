-- ===== src/Repo/Sealed/Trip.antt =====
-- `Get` after `Put` of internal/repo/db/sealed_repo.go: the bytes come back.
use Prim.Native.String.{◌++◌ as str_append}
use gophkeeper.Base.{
  ℕ, String, ◌+◌, ◌≡◌, refl, sym, str_eq, true, false, none, some, List, [], ◌∷◌, ◌++◌, length,
  bytes_eq, arith, ◌==◌,
}
use gophkeeper.Base.Go.{ok, pos, pure, ◌>>=◌}
use gophkeeper.Model
use gophkeeper.Model.{Bytes}
use gophkeeper.Database.{
  Uuid, Database, Server, Object, SecretBlob, ChunkManifest, any, find, sleep,
}
use gophkeeper.Database.Tables.{find_last, none_of, any_filtered}
use gophkeeper.Sqlc.{same_chunk}
use gophkeeper.Retry.Bounds.{with_retry_ok}
use gophkeeper.Repo.Sealed.{put, get, pipe, chunk_rows, located_objects, get_query, piped}
use gophkeeper.Repo.Sealed.Rows.{new_blob, new_chunk, put_stores_chunk}

module _ (srv : Server) (generate_sha256 : Bytes → Bytes) where
  -- the rows of an object whose only chunk comes last in the table
  chunk_rows_last :
      (id : Uuid) (blobs : List SecretBlob) (cs : List ChunkManifest) (c : ChunkManifest)
      (b : SecretBlob)
      → any (λ x. x.objects_id == id) cs ≡ false
      → c.objects_id ≡ id
      → find (λ x. x.id == c.blob_id) blobs ≡ some b
      → chunk_rows srv id blobs (cs ++ c ∷ [])
        ≡ record { index = c.chunk_index; sealed = b.sealed; length = c.length } ∷ []
  chunk_rows_last id blobs [] c b h q e =
      let here : (c.objects_id == id) ≡ true = ground (arith, q) in rw (here, e)
  chunk_rows_last id blobs (x ∷ cs) c b h q e =
      let (other, rest) = none_of (λ y. y.objects_id == id) x cs h in
      rw other (chunk_rows_last id blobs cs c b rest q e)

  get_ok : (loc : String) (d : Database) → get srv loc d ≡ (ok (pipe srv loc), d)
  unfolding get
  get_ok loc d = with_retry_ok sleep (pure (pipe srv loc)) 0 d d (pipe srv loc) refl

  -- the whole stored object, as the one row of its query
  get_query_whole :
      (loc : String) (o : Object) (blob : SecretBlob) (c : ChunkManifest) (cs : List ChunkManifest)
      (d : Database)
      → srv.fault d.rounds ≡ none
      → located_objects srv loc d.objects ≡ o ∷ []
      → d.chunk_manifest ≡ cs ++ c ∷ []
      → any (λ x. x.objects_id == o.id) cs ≡ false
      → c.objects_id ≡ o.id
      → find (λ x. x.id == c.blob_id) d.secret_blobs ≡ some blob
      → get_query srv loc d ≡ (
        ok (record { index = c.chunk_index; sealed = blob.sealed; length = c.length } ∷ []),
        record d { rounds = d.rounds + 1 },
      )
  unfolding get_query
  get_query_whole loc o blob c cs d f one m free q e =
      rw (f, one, m) (rw (chunk_rows_last o.id d.secret_blobs cs c blob free q e))

  piped_whole :
      (r : Bytes)
      → piped srv [] (record { index = pos 0; sealed = r; length = pos (length r) } ∷ []) ≡ ok r
  unfolding piped
  piped_whole r = ground arith

  read_whole :
      (loc : String) (o : Object) (id : Uuid) (r : Bytes) (d : Database)
      → ((k : ℕ) → srv.fault k ≡ none)
      → located_objects srv loc d.objects ≡ o ∷ []
      → o.id ≡ id
      → any (λ x. x.objects_id == id) d.chunk_manifest ≡ false
      → any (λ x. x.id == srv.gen_random_uuid (d.rounds + 1 + 1)) d.secret_blobs ≡ false
      → let t : Database = record d {
        secret_blobs = d.secret_blobs ++ new_blob srv generate_sha256 id r d ∷ [];
        chunk_manifest = d.chunk_manifest ++ new_chunk srv generate_sha256 id r d ∷ [];
        rounds = d.rounds + 1 + 1 + 1 + 1;
      } in
        ((get srv loc >>= λ rc. rc.read_all) t).0 ≡ ok r
  read_whole loc o id r d f one same free blob_free =
      let blob = new_blob srv generate_sha256 id r d in
      let c = new_chunk srv generate_sha256 id r d in
      let t : Database = record d {
        secret_blobs = d.secret_blobs ++ blob ∷ [];
        chunk_manifest = d.chunk_manifest ++ c ∷ [];
        rounds = d.rounds + 1 + 1 + 1 + 1;
      } in
      let rows =
        get_query_whole loc o blob c d.chunk_manifest t (f t.rounds) one refl (rw same free)
          (sym same)
          (find_last (λ x. x.id == c.blob_id) d.secret_blobs blob blob_free (ground arith)) in
      rw (get_ok loc t) (rw rows (piped_whole r))

  -- Where the server answers: non-empty data of the right SHA-256 that is Put for an object without
  -- chunks comes back byte for byte from a Get of the locator, where that object alone has the
  -- locator. The UUID of the blob must be new.
  pub get-put :
      (m : Model.Metadata) (b : ℕ) (bs sha : Bytes) (id : Uuid) (o : Object) (d : Database)
      → let r = b ∷ bs in
        ((k : ℕ) → srv.fault k ≡ none)
        → srv.parse_uuid m.id ≡ some id
        → bytes_eq (generate_sha256 r) sha ≡ true
        → located_objects srv (str_append "pg://" (srv.uuid_string id)) d.objects ≡ o ∷ []
        → o.id ≡ id
        → any (λ x. x.id == srv.gen_random_uuid (d.rounds + 1 + 1)) d.secret_blobs ≡ false
        → any (same_chunk (new_chunk srv generate_sha256 id r d)) d.chunk_manifest ≡ false
        → any (λ x. x.objects_id == id) d.chunk_manifest ≡ false
        → ((put srv generate_sha256 m r (pos (length r)) sha >>= λ loc.
              get srv loc >>= λ rc. rc.read_all)
            d).0
          ≡ ok r
  get-put m b bs sha id o d f p good one same blob_free chunk_free free =
      let r = b ∷ bs in
      let loc = str_append "pg://" (srv.uuid_string id) in
      rw
        (put_stores_chunk srv generate_sha256 m b bs sha id d f p good
          (any_filtered (λ x. str_eq x.storage_locator loc) (λ x. x.id == id) d.objects o one
            (ground (arith, same)))
          blob_free chunk_free)
        (read_whole loc o id r d f one same free blob_free)
