-- ===== src/Api/AuthService/OnDatabase.antt =====
-- internal/api/v1/auth_service.go over internal/repo/db/user_repo.go, as internal/api/api.go wires
-- them: what the query of FindByLogin makes of Login and Register.
use gophkeeper.Base.{ℕ, ◌+◌, ◌≡◌, ◌≢◌, refl, [], Option, none, some, false}
use gophkeeper.Base.Go.{
  Error, status, unauthenticated, wrap, errors_is, Outcome, ok, err, panic, Prog, mapped, continue,
  pure, fail, map_err, ◌>>=◌,
}
use gophkeeper.Model.{Bytes, UserId, User}
use gophkeeper.Session.{SessionManager}
use gophkeeper.Database.{Database, Server, UserRow, sleep, served}
use gophkeeper.Sqlc
use gophkeeper.Retry.Bounds.{Ends, with_retry_rule}
use gophkeeper.Repo.Users
use gophkeeper.Api.AuthService.{
  AuthService, AuthRequest, TokensResponse, Hashing, credentials_of, Credentials, login, register,
  login_is_free, is_not_found, new_auth_service,
}

-- an error that is not `model.ErrNotFound`
abbrev pub OtherError : Error → Type 0
OtherError e = errors_is is_not_found e ≡ false

abbrev NeverFound : {A : Type 0} → Outcome A × Database → Type 0
NeverFound r = Ends (λ t. Unit) (λ a t. ⊥) OtherError r

-- what follows a call that never succeeds does not succeed
continue_never :
    {A B : Type 0} (f : A → Prog Database B) (r : Outcome A × Database) (b : B)
    → NeverFound r
    → (continue f r).0 ≢ ok b
continue_never f (ok a, d) b h q = h
continue_never f (err e, d) b h q = cc
continue_never f (panic p, d) b h q = cc

mapped-NeverFound :
    {A : Type 0} (g : Error → Error) (r : Outcome A × Database)
    → ((e : Error) → OtherError e → OtherError (g e))
    → NeverFound r
    → NeverFound (mapped g r)
mapped-NeverFound g (ok a, d) k h = h
mapped-NeverFound g (err e, d) k h = (tt, k e h.1)
mapped-NeverFound g (panic p, d) k h = h

taken-NeverFound :
    (hash : Hashing Database) (svc : AuthService Database) (r : Outcome (UserId × User) × Database)
    → NeverFound r
    → NeverFound (login_is_free hash svc r)
taken-NeverFound hash svc (ok a, d) h = absurd h
taken-NeverFound hash svc (err e, d) h = rw h.1 (tt, refl)
taken-NeverFound hash svc (panic p, d) h = h

continue-NeverFound :
    {A B : Type 0} (f : A → Prog Database B) (r : Outcome A × Database)
    → NeverFound r
    → NeverFound (continue f r)
continue-NeverFound f (ok a, d) h = absurd h
continue-NeverFound f (err e, d) h = h
continue-NeverFound f (panic p, d) h = h

module _ (srv : Server) (faults : (k : ℕ) (e : Error) → srv.fault k ≡ some e → OtherError e) where
  row_never :
      (o : Option Error) (d : Database)
      → ((e : Error) → o ≡ some e → OtherError e)
      → NeverFound (served srv {A = UserRow} o (fail Sqlc.undefined_function) d)
  row_never none d h = (tt, refl)
  row_never (some e) d h = (tt, h e refl)

  as_found : UserRow → Prog Database (UserId × User)
  as_found row =
      pure (srv.uuid_string row.id, record { password_phc = row.password_phc; login_hash = [] })

  found_never : (h : Bytes) (d : Database) → NeverFound (Users.find_by_login srv h d)
  unfolding Users.find_by_login Sqlc.find_by_login as_found
  found_never h d =
      let query = map_err (wrap "queries.FindByLogin failed") (Sqlc.find_by_login srv h) in
      with_retry_rule sleep (query >>= as_found) (λ t. Unit) (λ a t. ⊥) OtherError
        (λ t u. continue-NeverFound as_found (query t) (
          mapped-NeverFound (wrap "queries.FindByLogin failed") (Sqlc.find_by_login srv h t)
            (λ e q. q) (missed t)))
        (λ k t u. tt) (λ m e q. q) 0 d tt
    where
      missed : (t : Database) → NeverFound (Sqlc.find_by_login srv h t)
      missed t =
          row_never (srv.fault t.rounds) (record t { rounds = t.rounds + 1 }) (faults t.rounds)

  module _ (hash : Hashing Database) (manager : SessionManager Database) where
    abbrev service : AuthService Database
    service = new_auth_service (Users.as_user_repository srv) manager

    login_refused :
        (o : Outcome Credentials) (r : Option AuthRequest) (d : Database)
        (response : TokensResponse)
        → credentials_of r ≡ o
        → (login hash service r d).0 ≢ ok response
    unfolding login new_auth_service Users.as_user_repository
    login_refused (ok c) r d response e =
        let lookup = Users.find_by_login srv (hash.generate_hmac c.login []) in
        rw e (
          continue_never _ (mapped (λ e. status unauthenticated "failed to find user") (lookup d))
            response
            (mapped-NeverFound (λ e. status unauthenticated "failed to find user") (lookup d)
              (λ e q. refl) (found_never (hash.generate_hmac c.login []) d)))
    login_refused (err x) r d response e = rw e (λ q. cc)
    login_refused (panic p) r d response e = rw e (λ q. cc)

    register_refused :
        (o : Outcome Credentials) (r : Option AuthRequest) (d : Database)
        (response : TokensResponse)
        → credentials_of r ≡ o
        → (register hash service r d).0 ≢ ok response
    unfolding register new_auth_service Users.as_user_repository
    register_refused (ok c) r d response e =
        let lookup = Users.find_by_login srv (hash.generate_hmac c.login []) in
        rw e (
          continue_never _ (login_is_free hash service (lookup d)) response (
            taken-NeverFound hash service (lookup d)
              (found_never (hash.generate_hmac c.login []) d)))
    register_refused (err x) r d response e = rw e (λ q. cc)
    register_refused (panic p) r d response e = rw e (λ q. cc)

    -- Where the server is the PostgreSQL of the migrations, and its faults are not the sentinel
    -- `model.ErrNotFound`, no Login succeeds and no Register succeeds: the lookup by login hash
    -- never finds a user and never reports that there is none.
    pub nobody_logs_in :
        (r : Option AuthRequest) (d : Database) (response : TokensResponse)
        → ((login hash service r d).0 ≢ ok response) × ((register hash service r d).0 ≢ ok response)
    nobody_logs_in r d response = (
      login_refused (credentials_of r) r d response refl,
      register_refused (credentials_of r) r d response refl,
    )
