-- ===== src/DbManager/Chain.antt =====
-- The chain of calls on a `Fluent` and the deferred close of ApplyMigrations, of
-- internal/service/server/dbmanager/dbmanager.go.
use gophkeeper.Base.{◌≡◌, ◌≢◌, ◌↔◌, inl, inr, refl, String, Bool-cases, true, Option, none, some}
use gophkeeper.Base.Go.{Error, Outcome, ok, err, panic, Prog, continue, errors_is, ◌>>◌}
use gophkeeper.DbManager.{
  UpCloser, Drivers, Manager, Fluent, fluent_new, new_manager, fluent_connect,
  fluent_apply_migrations, fluent_ping, connect, apply_migrations, ping, result, fluently, noted,
  migrated, is_no_change, applied, joined,
}

module _ {S Fs Source Config Pool : Type 0} (drivers : Drivers S Fs Source Config Pool) where
  abbrev Call : Type 0
  Call = Prog (Manager S Fs Pool) (Unit {0})

  -- the two results of `Result`, after the calls of a chain
  abbrev pub returned : Outcome (Unit {0}) × Fluent drivers → Outcome (Unit {0}) × Manager S Fs Pool
  returned (ok u, f) = (result drivers f.error, f.m)
  returned (err e, f) = (err e, f.m)
  returned (panic p, f) = (panic p, f.m)

  abbrev start : Manager S Fs Pool → Fluent drivers
  start m = record { m = m; error = none }

  returned-noted : (r : Outcome (Unit {0}) × Manager S Fs Pool) → returned (noted drivers r) ≡ r
  returned-noted (ok u, m) = refl
  returned-noted (err e, m) = refl
  returned-noted (panic p, m) = refl

  one_more :
      (c : Call) (r : Outcome (Unit {0}) × Manager S Fs Pool)
      → returned (continue (λ x. fluently drivers c) (noted drivers r)) ≡ continue (λ x. c) r
  one_more c (ok u, m) = returned-noted (c m)
  one_more c (err e, m) = refl
  one_more c (panic p, m) = refl

  two_more :
      (b c : Call) (r : Outcome (Unit {0}) × Manager S Fs Pool)
      → returned (
          continue (λ x. fluently drivers c) (continue (λ x. fluently drivers b) (noted drivers r)))
        ≡ continue (λ x. c) (continue (λ x. b) r)
  two_more b c (ok u, m) = one_more c (b m)
  two_more b c (err e, m) = refl
  two_more b c (panic p, m) = refl

  -- The chain of Connect, ApplyMigrations and Ping on a new Fluent returns what these three calls
  -- on a new manager return, each made only if the one before it returned no error.
  pub fluent_chain :
      (dsn : String) (fs : Fs) (s : S)
      → returned (
          (fluent_connect drivers >> fluent_apply_migrations drivers >> fluent_ping drivers)
            (fluent_new drivers dsn fs s))
        ≡ (connect drivers >> apply_migrations drivers >> ping drivers) (new_manager dsn fs s)
  unfolding fluent_new new_manager fluent_connect fluent_apply_migrations fluent_ping
  fluent_chain dsn fs s =
      two_more (apply_migrations drivers) (ping drivers) (connect drivers (new_manager dsn fs s))

-- `Up` left nothing to report
abbrev pub IsClean : Outcome (Unit {0}) → Type 0
IsClean (ok u) = Unit
IsClean (err e) = errors_is is_no_change e ≡ true
IsClean (panic p) = ⊥

applied-IsClean : (r : Outcome (Unit {0})) → IsClean r → applied r ≡ ok tt
applied-IsClean (ok u) h = refl
applied-IsClean (err e) h = rw h refl
applied-IsClean (panic p) h = absurd h

err_ok : (e : Error) → err e ≢ ok (tt {0})
err_ok e q = cc

panic_ok : (m : String) → panic m ≢ ok (tt {0})
panic_ok m q = cc

IsClean-applied : (r : Outcome (Unit {0})) → applied r ≡ ok tt → IsClean r
IsClean-applied (ok u) h = tt
IsClean-applied (err e) h = elim (Bool-cases (errors_is is_no_change e)) [
  | inl same ↦ same
  | inr changed ↦ absurd (err_ok _ (rw changed at h))
]
IsClean-applied (panic p) h = absurd (panic_ok p h)

joined_ok :
    (text : String) (o : Option Error) (r : Outcome (Unit {0}))
    → joined text o r ≡ ok tt
    → (o ≡ none) × (r ≡ ok tt)
joined_ok text none r h = (refl, h)
joined_ok text (some e) (ok u) h = absurd (err_ok _ h)
joined_ok text (some e) (err d) h = absurd (err_ok _ h)
joined_ok text (some e) (panic p) h = absurd (panic_ok p h)

-- ApplyMigrations, once it has a migrator: the migrator is closed after Up on every way out. The
-- result is no error exactly where Up succeeded or had nothing to change, and neither the source
-- nor the database failed to close.
pub migrated_lem :
    {S : Type 0} (u : UpCloser S) (s : S)
    → let (r, t) = u.up s in
      let ((source_err, db_err), end) = u.close t in
      ((migrated u s).1 ≡ end)
      × ((migrated u s).0 ≡ ok tt ↔ IsClean r × (source_err ≡ none) × (db_err ≡ none))
unfolding migrated
migrated_lem u s =
    let r = (u.up s).0 in
    let errors = (u.close (u.up s).1).0 in
    (
      refl,
      (
        λ h.
            let (db, rest) =
              joined_ok "failed to close DB connection used by migrate" errors.1
                (joined "failed to close migrations source" errors.0 (applied r)) h in
            let (source, clean) =
              joined_ok "failed to close migrations source" errors.0 (applied r) rest in
            (IsClean-applied r clean, source, db),
        λ (clean, source, db). rw (source, db) (applied-IsClean r clean),
      ),
    )
