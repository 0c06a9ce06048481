-- ===== src/Api/Server/Crash.antt =====
-- What a Delete does to the server that Setup of internal/api/api.go puts together.
use text.Mathlib.Text.{starts_with}
use gophkeeper.Base.{
  ℕ, ◌+◌, ◌≡◌, refl, ap, sym, subst, ◌∙◌, String, Bool, Bool-cases, inl, inr, true, false, not,
  ◌||◌, Option, none, some, List, [], ◌∷◌, ◌==◌, str_eq, if◌then◌else◌,
}
use gophkeeper.Base.Go.{Error, Outcome, ok, panic}
use gophkeeper.Base.Texts.{trim_prefix}
use gophkeeper.Config.{Config}
use gophkeeper.Convert.{Timestamps, ProtoMetadata, get_id}
use gophkeeper.Database.{Uuid, Database, Object, any, filter, find, sleep}
use gophkeeper.Keeper
use gophkeeper.Model.{DataId, UserId}
use gophkeeper.Repo.Metadata
use gophkeeper.Repo.Sealed
use gophkeeper.Retry.Bounds.{with_retry_ok}
use gophkeeper.Router
use gophkeeper.Router.{nil_dereference}
use gophkeeper.Router.Panics.{get_delete_never_routed}
use gophkeeper.Session.{md_key_authorisation, auth_token_prefix}
use gophkeeper.Sqlc
use gophkeeper.Sqlc.{has_object, delete_objects}
use gophkeeper.Api.Interceptor.{Headers}
use gophkeeper.Api.Server.{
  Outside, Server, GrpcServer, Pool, TlsConfig, setup, services, setup_repos, repos_by_type,
}
use gophkeeper.Api.Server.Built.{served_by}
use gophkeeper.Api.Server.Calls.{call_delete}

any-filter : {A : Type 0} (p : A → Bool) (xs : List A) → any p (filter (λ x. not (p x)) xs) ≡ false
any-filter p [] = refl
any-filter p (x ∷ xs) = elim (Bool-cases (p x)) [
  | inl gone ↦ rw gone (any-filter p xs)
  | inr kept ↦ rw kept (rw kept (any-filter p xs))
]

second_taken : {A : Type 0} (a b : Bool) (x y : A) → b ≡ true → (if a || b then x else y) ≡ x
second_taken true b x y h = refl
second_taken false b x y h = rw h refl

module _ {Certificate Listener : Type 0} (out : Outside Certificate Listener)
    (ctx_err : Database → Option Error) where
  -- the rows after the statement of Delete
  abbrev without : Uuid → Database → Database
  without u d = delete_objects (λ x. x.id == u) (record d { rounds = d.rounds + 1 })

  deleted_row :
      (pool : Pool) (id : DataId) (u : Uuid) (o : Object) (d : Database)
      → ((k : ℕ) → pool.fault k ≡ none)
      → pool.parse_uuid id ≡ some u
      → find (λ x. x.id == u) d.objects ≡ some o
      → Metadata.delete pool id d ≡ (ok o.storage_locator, without u d)
  unfolding Metadata.delete Sqlc.delete_metadata
  deleted_row pool id u o d answers p found =
      with_retry_ok sleep (Metadata.delete_logic pool id) 0 d (without u d) o.storage_locator
        (rw p (rw (answers d.rounds, found) refl))

  -- the router's Delete of a locator that begins with "pg"
  nil_store :
      (pool : Pool) (loc : String) (s : Database)
      → starts_with loc "pg" ≡ true
      → Router.delete
          (Router.new_router
            (repos_by_type out ctx_err (Sealed.as_object_repo pool out.crypto.sha256)))
          loc
          s
        ≡ (panic nil_dereference, s)
  nil_store pool loc s h =
      (get_delete_never_routed
        (repos_by_type out ctx_err (Sealed.as_object_repo pool out.crypto.sha256)) loc s).1
      ∙ ap (λ (r : Outcome (Unit {0})). (r, s)) (second_taken (starts_with loc "s3") _ _ _ h)

  use_case_delete :
      (pool : Pool) (id : DataId) (u : Uuid) (o : Object) (d : Database)
      → ((k : ℕ) → pool.fault k ≡ none)
      → str_eq id "" ≡ false
      → pool.parse_uuid id ≡ some u
      → find (λ x. x.id == u) d.objects ≡ some o
      → starts_with o.storage_locator "pg" ≡ true
      → (setup_repos out ctx_err pool).use_case.delete id d ≡ (panic nil_dereference, without u d)
  unfolding setup_repos Keeper.delete Keeper.new_service Router.as_object_repo
  use_case_delete pool id u o d answers named p found pg = rw named (
      rw (deleted_row pool id u o d answers p found)
        (rw (nil_store pool o.storage_locator (without u d) pg) refl))

  by_services :
      (cfg : Config) (creds : TlsConfig Certificate) (pool : Pool) (id : DataId) (u : Uuid)
      (o : Object) (d : Database)
      → ((k : ℕ) → pool.fault k ≡ none)
      → str_eq id "" ≡ false
      → pool.parse_uuid id ≡ some u
      → find (λ x. x.id == u) d.objects ≡ some o
      → starts_with o.storage_locator "pg" ≡ true
      → (services out ctx_err cfg pool creds).keeper.delete id d
        ≡ (panic nil_dereference, without u d)
  unfolding services
  by_services cfg creds pool id u o d answers named p found pg =
      use_case_delete pool id u o d answers named p found pg

  -- Over the server that Setup built, where PostgreSQL answers: a caller with a valid token who
  -- deletes an object that has a row with a locator of the object store ("pg") makes the handler
  -- panic, whoever owns the object, and the row is gone when it does.
  pub delete_crashes :
      (server ready : Server Certificate) (pool : Pool) (g : GrpcServer Certificate)
      (ts : Timestamps) (md : Headers) (value : String) (others : List String) (caller : UserId)
      (m : ProtoMetadata ts.Timestamp) (u : Uuid) (o : Object) (d : Database)
      → setup out ctx_err server ≡ (ok tt, ready)
      → server.db_manager.get_pool ≡ ok pool
      → ready.grpc_server ≡ some g
      → ((k : ℕ) → pool.fault k ≡ none)
      → md md_key_authorisation ≡ value ∷ others
      → g.session_manager.validate_access_token (trim_prefix value auth_token_prefix) d
        ≡ (ok caller, d)
      → str_eq caller "" ≡ false
      → str_eq (get_id (some m)) "" ≡ false
      → pool.parse_uuid (get_id (some m)) ≡ some u
      → find (λ x. x.id == u) d.objects ≡ some o
      → starts_with o.storage_locator "pg" ≡ true
      → (t : Database) × (call_delete g out.crypto
            (some md)
            ts
            (some (record { metadata = some m }))
            d
          ≡ (panic nil_dereference, t))
        × (has_object u t ≡ false)
  unfolding call_delete
  delete_crashes server ready pool g ts md value others caller m u o d set pooled built answers
        header valid named identified p found pg =
      let (creds, e) = served_by out ctx_err server ready pool g set pooled built in
      let id = get_id (some m) in
      let removed : g.keeper.delete id d ≡ (panic nil_dereference, without u d) =
        subst
          (λ (x : GrpcServer Certificate).
            x.keeper.delete id d ≡ (panic nil_dereference, without u d))
          (sym e) (by_services server.cfg creds pool id u o d answers identified p found pg) in
      (
        without u d,
        rw header (rw valid (rw (named, removed) refl)),
        any-filter (λ x. x.id == u) d.objects,
      )
