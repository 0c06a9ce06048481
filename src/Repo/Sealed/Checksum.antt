-- ===== src/Repo/Sealed/Checksum.antt =====
-- One chunk through `Put` of internal/repo/db/sealed_repo.go, and what a wrong checksum does.
use Prim.Native.String.{String, ◌++◌ as str_append}
use gophkeeper.Base.{
  ℕ, suc, ◌+◌, ◌≡◌, ap, sym, subst, ◌∙◌, false, none, some, [], ◌∷◌, length, take_all, drop_all,
  bytes_eq, Bool-cases, inl, inr,
}
use gophkeeper.Base.Go.{new, errors_is, Outcome, ok, err, panic, pos, ◌>>=◌, pure, ℤ}
use gophkeeper.Model
use gophkeeper.Model.{Bytes, ObjectLocator}
use gophkeeper.Database.{Uuid, Database, Server}
use gophkeeper.Retry.Bounds.{with_retry_ok}
use gophkeeper.Repo.Sealed.{
  Tx, Upload, store_chunk, put_helper, put_loop, looped, is_eof, put, put_logic, put_tx, sleep,
  located, commit, to_source,
}
use gophkeeper.Repo.Sealed.Stores.{put_helper-eof, store_chunk-Leaves}

abbrev pub NoPanic : {A : Type 0} → Outcome A → Type 0
NoPanic (ok a) = Unit
NoPanic (err e) = Unit
NoPanic (panic p) = ⊥

module _ (srv : Server) (generate_sha256 : Bytes → Bytes) where
  put_loop-eof :
      (fuel idx n : ℕ) (id : Uuid) (sha : Bytes) (u : Upload)
      → u.rest ≡ []
      → put_loop srv generate_sha256 (suc fuel) idx (pos n) id sha u ≡ some (ok tt, u)
  unfolding put_loop
  put_loop-eof fuel idx n id sha u h = rw (put_helper-eof srv generate_sha256 idx n id sha u h)

  looped-eof :
      (fuel idx n : ℕ) (id : Uuid) (sha : Bytes) (x : Outcome (Unit {0}) × Upload)
      → NoPanic x.0
      → x.1.rest ≡ []
      → looped srv generate_sha256 (put_loop srv generate_sha256 (suc fuel) idx (pos n) id sha) x
        ≡ some (ok tt, x.1)
  looped-eof fuel idx n id sha (ok y, u) q h = put_loop-eof fuel idx n id sha u h
  looped-eof fuel idx n id sha (err e, u) q h = elim (Bool-cases (errors_is is_eof e)) [
    | inl over ↦ rw over
    | inr more ↦ rw more (put_loop-eof fuel idx n id sha u h)
  ]
  looped-eof fuel idx n id sha (panic p, u) q h = absurd q

  -- data that fits the buffer is one chunk, and the loop ends after it
  pub put_loop_one :
      (b : ℕ) (bs : Bytes) (id : Uuid) (sha : Bytes) (t : Tx)
      → let n = length (b ∷ bs) in
        let x =
          store_chunk srv generate_sha256 0 n id sha (b ∷ bs) (record { tx = t; rest = [] }) in
        NoPanic x.0
        → put_loop srv generate_sha256 (suc n) 0 (pos n) id sha (record { tx = t; rest = b ∷ bs })
          ≡ some (ok tt, x.1)
  unfolding put_loop put_helper
  put_loop_one b bs id sha t q =
      rw (take_all bs, drop_all bs)
        (looped-eof (length bs) (0 + 1) (length (b ∷ bs)) id sha _ q (
          (store_chunk-Leaves srv generate_sha256 0 (length (b ∷ bs)) id sha (b ∷ bs)).at
            (record { tx = t; rest = [] })))

  abbrev pub begun : Database → Tx
  begun d = record { db = d; saved = d; aborted = false }

  -- the transaction of one chunk, by what storing the chunk does
  pub put_tx_one :
      (b : ℕ) (bs : Bytes) (id : Uuid) (sha : Bytes) (d : Database) (o : Outcome (Unit {0}))
      (u : Upload)
      → store_chunk srv generate_sha256 0
          (length (b ∷ bs))
          id
          sha
          (b ∷ bs)
          (record { tx = begun d; rest = [] })
        ≡ (o, u)
      → NoPanic o
      → put_tx srv generate_sha256 (pos (length (b ∷ bs))) id sha (record { db = d; rest = b ∷ bs })
        ≡ to_source srv generate_sha256
            ((commit srv generate_sha256 >>= λ y. pure (srv.uuid_string id)) u)
  put_tx_one b bs id sha d o u e q =
      rw
        (put_loop_one b bs id sha (begun d)
          (subst (λ (r : Outcome (Unit {0}) × Upload). NoPanic r.0) (sym e) q))
        (rw e)

  -- a whole `Put` that begins, whose transaction commits
  pub put_of_tx :
      (m : Model.Metadata) (size : ℤ) (r sha : Bytes) (id : Uuid) (d t : Database) (rest : Bytes)
      (uuid : String)
      → srv.fault d.rounds ≡ none
      → srv.parse_uuid m.id ≡ some id
      → put_tx srv generate_sha256 size id sha
          (record { db = record d { rounds = d.rounds + 1 }; rest = r })
        ≡ (ok uuid, record { db = t; rest = rest })
      → put srv generate_sha256 m r size sha d ≡ (ok (str_append "pg://" uuid), t)
  unfolding put
  put_of_tx m size r sha id d t rest uuid f p e = ap (located srv generate_sha256) (
      with_retry_ok (sleep srv generate_sha256) (put_logic srv generate_sha256 m size sha) 0
        (record { db = d; rest = r }) (record { db = t; rest = rest }) uuid (rw (f, p) (rw e)))

  -- Where the server answers, `Put` of data whose SHA-256 is not the one that was passed returns a
  -- locator like a success, and no row has been written.
  pub put_checksum_dropped :
      (m : Model.Metadata) (b : ℕ) (bs sha : Bytes) (id : Uuid) (d : Database)
      → srv.fault d.rounds ≡ none
      → srv.fault (d.rounds + 1) ≡ none
      → srv.parse_uuid m.id ≡ some id
      → bytes_eq (generate_sha256 (b ∷ bs)) sha ≡ false
      → put srv generate_sha256 m (b ∷ bs) (pos (length (b ∷ bs))) sha d
        ≡ (ok (str_append "pg://" (srv.uuid_string id)), record d { rounds = d.rounds + 1 + 1 })
  put_checksum_dropped m b bs sha id d f g p bad =
      put_of_tx m (pos (length (b ∷ bs))) (b ∷ bs) sha id d (record d { rounds = d.rounds + 1 + 1 })
        [] (srv.uuid_string id) f p
        (put_tx_one b bs id sha (record d { rounds = d.rounds + 1 }) (err (new "sha256 mismatch"))
            (record { tx = begun (record d { rounds = d.rounds + 1 }); rest = [] }) (rw bad) tt
          ∙ rw g)
