-- ===== src/Repo/Sealed.antt =====
-- internal/repo/db/sealed_repo.go: objects as rows of secret_blobs and chunk_manifest. The only
-- reader that `Put` is given is a `bytes.Reader`, held here by the bytes that are left of it.
pub mod Stores
pub mod Checksum
pub mod Rows
pub mod Trip
pub mod Sizes
mod Tests
use Prim.Native.String.{◌++◌ as str_append}
use gophkeeper.Base.{
  ℕ, zero, suc, ◌+◌, String, Bool, true, false, not, ◌&&◌, Option, none, some, List, [], ◌∷◌, ◌++◌,
  length, take, drop, ltb, leb, ◌==◌, bytes_eq, str_eq, if◌then◌else◌,
}
use gophkeeper.Base.Go.{
  Error, new, wrap, pg, eof, errors_is, Outcome, ok, err, panic, Prog, pure, fail, lift, map_err,
  continue, mapped, ℤ, pos, negsuc, int32, ◌>>=◌, ◌>>◌,
}
use gophkeeper.Model
use gophkeeper.Model.{Bytes, ObjectLocator}
use gophkeeper.Database
use gophkeeper.Database.{Uuid, Database, Server, Object, SecretBlob, ChunkManifest, round, find}
use gophkeeper.Sqlc
use gophkeeper.Retry.{with_retry}
use gophkeeper.Keeper.{ObjectRepo, ReadCloser}
use gophkeeper.Repo.{to_pg_uuid}

-- A transaction: the tables as its statements see them, those before it, and whether a statement
-- has failed, after which the server refuses all others and a commit rolls back.
pub record Tx : Type 0 where
  pub db : Database
  pub saved : Database
  pub aborted : Bool

-- what `Put` works on: a transaction, and what is left of the reader
pub record Upload : Type 0 where
  pub tx : Tx
  pub rest : Bytes

pub record Source : Type 0 where
  pub db : Database
  pub rest : Bytes

abbrev pub in_failed_transaction : Error
in_failed_transaction = pg "25P02"

abbrev pub commit_rollback : Error
commit_rollback = new "commit unexpectedly resulted in rollback"

abbrev pub is_eof : Error → Bool
is_eof eof = true
is_eof _ = false

abbrev pub executed : {A : Type 0} → Upload → Outcome A × Database → Outcome A × Upload
executed u (ok a, d) = (ok a, record u { tx = record u.tx { db = d } })
executed u (err e, d) = (err e, record u { tx = record u.tx { db = d; aborted = true } })
executed u (panic p, d) = (panic p, record u { tx = record u.tx { db = d; aborted = true } })

-- a statement of the transaction
abbrev pub in_tx : {A : Type 0} → Prog Database A → Prog Upload A
in_tx statement u =
    if u.tx.aborted then (err in_failed_transaction, u) else executed u (statement u.tx.db)

-- the tables as before the transaction; the clock and the count of statements go on
abbrev pub restored : Tx → Database
restored t = record t.saved { now = t.db.now; rounds = t.db.rounds }

abbrev pub read_from : ℕ → Bytes → Prog Upload Bytes
read_from n [] u = (err eof, u)
read_from n (b ∷ bs) u = (ok (take n (b ∷ bs)), record u { rest = drop n (b ∷ bs) })

-- `bytes.Reader.Read` into a buffer of this size
abbrev pub read : ℕ → Prog Upload Bytes
read n u = read_from n u.rest u

-- The chunk length that is stored is the buffer's.
module _ (srv : Server) (generate_sha256 : Bytes → Bytes) where
  abbrev pub store_chunk : ℕ → ℕ → Uuid → Bytes → Bytes → Prog Upload (Unit {0})
  store_chunk idx n data_uuid sha sealed =
      if bytes_eq (generate_sha256 sealed) sha
      then (do
        blob_id ← map_err (wrap "InsertBlob") (in_tx (Sqlc.insert_blob srv data_uuid sealed))
        map_err (wrap "PutManifest") (
            in_tx (
              Sqlc.put_manifest srv (record {
                objects_id = data_uuid;
                blob_id = blob_id;
                chunk_index = int32 idx;
                length = pos n;
              }))))
      else fail (new "sha256 mismatch")

  -- `make` panics at a negative size. The test after the read compares the buffer's length with
  -- the size that it was made with, so it is never taken.
  unfoldable pub put_helper : ℕ → ℤ → Uuid → Bytes → Prog Upload (Unit {0})
  put_helper idx (negsuc m) data_uuid sha u = (panic "makeslice: len out of range", u)
  put_helper idx (pos n) data_uuid sha u = continue (store_chunk idx n data_uuid sha) (read n u)

  abbrev pub looped :
      (Upload → Option (Outcome (Unit {0}) × Upload))
      → Outcome (Unit {0}) × Upload
      → Option (Outcome (Unit {0}) × Upload)
  looped again (ok x, u) = again u
  looped again (err e, u) = if errors_is is_eof e then some (ok tt, u) else again u
  looped again (panic p, u) = some (panic p, u)

  -- The loop ends at io.EOF and at nothing else: other errors are dropped. `none` means that the
  -- fuel ran out.
  unfoldable pub put_loop : ℕ → ℕ → ℤ → Uuid → Bytes → Upload → Option (Outcome (Unit {0}) × Upload)
  unfolding put_helper
  put_loop zero idx size data_uuid sha u = none
  put_loop (suc fuel) idx size data_uuid sha u =
      looped (put_loop fuel (idx + 1) size data_uuid sha) (put_helper idx size data_uuid sha u)

  abbrev pub out_of_fuel :
      Upload → Option (Outcome (Unit {0}) × Upload) → Outcome (Unit {0}) × Upload
  out_of_fuel u none = (panic "the loop does not end", u)
  out_of_fuel u (some r) = r

  -- `tx.Commit`, and the deferred `tx.Rollback` where it fails
  abbrev pub commit_with : Bool → Option Error → Tx → Outcome (Unit {0}) × Database
  commit_with aborted (some e) t = (err e, restored t)
  commit_with true none t = (err commit_rollback, restored t)
  commit_with false none t = (ok tt, t.db)

  abbrev pub counted : Tx → Tx
  counted t = record t { db = record t.db { rounds = t.db.rounds + 1 } }

  abbrev pub commit : Prog Upload (Unit {0})
  commit u =
      let t = counted u.tx in
      let (r, d) = commit_with t.aborted (srv.fault u.tx.db.rounds) t in
      (r, record u { tx = record u.tx { db = d } })

  abbrev pub to_source : {A : Type 0} → Outcome A × Upload → Outcome A × Source
  to_source (ok a, u) = (ok a, record { db = u.tx.db; rest = u.rest })
  to_source (err e, u) = (err e, record { db = u.tx.db; rest = u.rest })
  to_source (panic p, u) = (panic p, record { db = restored u.tx; rest = u.rest })

  -- the body of the transaction, once begun; the locator's UUID is the metadata's identifier
  abbrev pub put_tx : ℤ → Uuid → Bytes → Source → Outcome String × Source
  put_tx size data_uuid sha s =
      let u : Upload = record {
        tx = record { db = s.db; saved = s.db; aborted = false };
        rest = s.rest;
      } in
      to_source (
        continue (λ x. commit >>= λ y. pure (srv.uuid_string data_uuid))
          (out_of_fuel u (put_loop (suc (length s.rest)) 0 size data_uuid sha u)))

  abbrev on_db : {A : Type 0} → Source → Outcome A × Database → Outcome A × Source
  on_db s (r, d) = (r, record s { db = d })

  abbrev pub put_logic : Model.Metadata → ℤ → Bytes → Prog Source String
  put_logic meta size sha = do
    map_err (wrap "failed to start TX") (λ s. on_db s (round srv (pure tt) s.db))
    data_uuid ← map_err (wrap "wrong dataID format") (lift (to_pg_uuid srv meta.id))
    map_err (wrap "commit") (put_tx size data_uuid sha)

  abbrev pub sleep : ℕ → Source → Source
  sleep k s = record s { db = Database.sleep k s.db }

  abbrev located : Outcome String × Source → Outcome ObjectLocator × Database
  located (ok uuid, s) = (ok (str_append "pg://" uuid), s.db)
  located (err e, s) = (err e, s.db)
  located (panic p, s) = (panic p, s.db)

  -- The reader is the same at every attempt.
  unfoldable pub put : Model.Metadata → Bytes → ℤ → Bytes → Prog Database ObjectLocator
  unfolding with_retry put_loop
  put meta r size sha d =
      located (with_retry sleep (put_logic meta size sha) 0 (record { db = d; rest = r }))

module _ (srv : Server) where
  -- a row of getQuery: the blob and the length of its chunk
  pub record ChunkRow : Type 0 where
    pub index : ℤ
    pub sealed : Bytes
    pub length : ℤ

  abbrev pub row_of : ChunkManifest → Option SecretBlob → Option ChunkRow
  row_of c none = none
  row_of c (some b) = some (record { index = c.chunk_index; sealed = b.sealed; length = c.length })

  abbrev leb_index : ℤ → ℤ → Bool
  leb_index (pos a) (pos b) = leb a b
  leb_index (pos a) (negsuc b) = false
  leb_index (negsuc a) (pos b) = true
  leb_index (negsuc a) (negsuc b) = leb b a

  -- ORDER BY cm.chunk_index
  abbrev insert_row : ChunkRow → List ChunkRow → List ChunkRow
  insert_row r [] = r ∷ []
  insert_row r (x ∷ xs) = if leb_index r.index x.index then r ∷ x ∷ xs else x ∷ insert_row r xs

  abbrev add_row : Option ChunkRow → List ChunkRow → List ChunkRow
  add_row none rows = rows
  add_row (some r) rows = insert_row r rows

  abbrev pub chunk_rows : Uuid → List SecretBlob → List ChunkManifest → List ChunkRow
  chunk_rows id blobs [] = []
  chunk_rows id blobs (c ∷ cs) =
      let rest = chunk_rows id blobs cs in
      if c.objects_id == id
      then add_row (row_of c (find (λ b. b.id == c.blob_id) blobs)) rest
      else rest

  abbrev pub located_objects : String → List Object → List Object
  located_objects loc = Database.filter (λ o. str_eq o.storage_locator loc)

  -- the scalar subquery: no object is NULL, which equals nothing; two are an error
  abbrev get_rows : Database → List Object → Outcome (List ChunkRow)
  get_rows d [] = ok []
  get_rows d (o ∷ []) = ok (chunk_rows o.id d.secret_blobs d.chunk_manifest)
  get_rows d (o ∷ p ∷ os) = err (pg "21000")

  unfoldable pub get_query : String → Prog Database (List ChunkRow)
  get_query loc = round srv λ d. (get_rows d (located_objects loc d.objects), d)

  abbrev length_fits : Bytes → ℤ → Bool
  length_fits b (pos n) = length b == n
  length_fits b (negsuc n) = false

  abbrev pub length_mismatch : Error
  length_mismatch = new "rows.Scan: data corrupted: length mismatch"

  -- What a reader of the pipe gets: the blobs in turn, up to the first error.
  unfoldable pub piped : Bytes → List ChunkRow → Outcome Bytes
  piped out [] = ok out
  piped out (r ∷ rs) =
      let rest = piped (out ++ r.sealed) rs in
      if length_fits r.sealed r.length then rest else err length_mismatch

  -- The goroutine that writes the pipe runs its query for the reader. `pr.Close` returns nil.
  abbrev pub pipe : ObjectLocator → ReadCloser Database
  pipe loc = record {
    read_all = (do rows ← map_err (wrap "pgxpool.Query") (get_query loc); lift (piped [] rows));
    close = pure tt;
  }

  unfoldable pub get : ObjectLocator → Prog Database (ReadCloser Database)
  unfolding with_retry get_query piped
  get loc = with_retry Database.sleep (pure (pipe loc)) 0

  unfoldable pub delete : ObjectLocator → Prog Database (Unit {0})
  unfolding with_retry
  delete loc =
      with_retry Database.sleep (map_err (wrap "queries.DeleteObject") (Sqlc.delete_object srv loc))
        0

  unfoldable pub as_object_repo : (Bytes → Bytes) → ObjectRepo Database
  unfolding put get delete
  as_object_repo generate_sha256 = record {
    put = put srv generate_sha256;
    get = get;
    delete = delete;
  }
