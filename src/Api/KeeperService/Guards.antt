-- ===== src/Api/KeeperService/Guards.antt =====
-- Who the handlers of internal/api/v1/keeper_service.go serve, and with what they answer others.
use gophkeeper.Base.{String, ◌≡◌, ◌≢◌, ◌⊎◌, inl, inr, refl, Option, none, some, List, arith, eq_iff}
use gophkeeper.Base.Go.{Error, status, unauthenticated, Outcome, ok, err, Prog}
use gophkeeper.Model.{UserId}
use gophkeeper.Session.{SessionManager}
use gophkeeper.Convert.{Timestamps}
use gophkeeper.Api.Context.{
  ContextValue, user_id, authenticated, as_user_id, msg_user_not_authenticated,
}
use gophkeeper.Api.Interceptor.{Headers, serve_stream}
use gophkeeper.Api.KeeperService.{
  KeeperUseCase, AddRequest, MetadataRequest, SyncRequest, StreamResponse, add, delete, get, sync,
}

abbrev pub no_user : Error
no_user = status unauthenticated msg_user_not_authenticated

-- no `model.UserID`, or an empty one
abbrev pub Nobody : ContextValue → Type 0
Nobody v = (as_user_id v ≡ none) ⊎ (as_user_id v ≡ some "")

authenticated-Nobody : (v : ContextValue) → Nobody v → authenticated v ≡ err no_user
authenticated-Nobody v (inl e) = rw e
authenticated-Nobody v (inr e) = rw e

module _ {S : Type 0} (ts : Timestamps) (u : KeeperUseCase S) where
  -- A caller with no user in the context is refused as Unauthenticated by Add, Delete, Get and Sync
  -- of a request that is there, and nothing is read or changed.
  pub anonymous_refused :
      (error_text : Error → String) (answer : Prog S (Unit {0}))
      (send : StreamResponse ts.Timestamp → Prog S (Unit {0}))
      (inbox : List (Outcome (AddRequest ts.Timestamp))) (r : MetadataRequest ts.Timestamp)
      (q : SyncRequest) (v : ContextValue) (s : S)
      → Nobody v
      → (add ts u error_text answer v inbox s ≡ (err no_user, s))
        × (delete ts u v (some r) s ≡ (err no_user, s))
        × (get ts u send v (some r) s ≡ (err no_user, s))
        × (sync ts u send v (some q) s ≡ (err no_user, s))
  unfolding add delete get sync
  anonymous_refused error_text answer send inbox r q v s h =
      let e = authenticated-Nobody v h in (rw e, rw e, rw e, rw e)

  -- The server runs its streaming methods without the interceptor: whatever token a client sends
  -- along, Add, Get and Sync answer Unauthenticated and change nothing.
  pub streams_never_authenticated :
      (manager : SessionManager S) (headers : Option Headers) (error_text : Error → String)
      (answer : Prog S (Unit {0})) (send : StreamResponse ts.Timestamp → Prog S (Unit {0}))
      (inbox : List (Outcome (AddRequest ts.Timestamp))) (r : MetadataRequest ts.Timestamp)
      (q : SyncRequest) (s : S)
      → (serve_stream manager headers inbox (add ts u error_text answer) s ≡ (err no_user, s))
        × (serve_stream manager headers (some r) (get ts u send) s ≡ (err no_user, s))
        × (serve_stream manager headers (some q) (sync ts u send) s ≡ (err no_user, s))
  unfolding serve_stream add get sync
  streams_never_authenticated manager headers error_text answer send inbox r q s =
      (refl, refl, refl)

  authenticated_named : (a : UserId) → a ≢ "" → authenticated (user_id a) ≡ ok a
  authenticated_named a h = ground (arith, eq_iff a "")

  -- Delete and Get do not ask whose object it is: for any two users with a name they do the same.
  pub delete_get_ignore_owner :
      (send : StreamResponse ts.Timestamp → Prog S (Unit {0}))
      (r : Option (MetadataRequest ts.Timestamp)) (a b : UserId) (s : S)
      → a ≢ ""
      → b ≢ ""
      → (delete ts u (user_id a) r s ≡ delete ts u (user_id b) r s)
        × (get ts u send (user_id a) r s ≡ get ts u send (user_id b) r s)
  unfolding delete get
  delete_get_ignore_owner send none a b s ha hb = (refl, refl)
  delete_get_ignore_owner send (some r) a b s ha hb =
      let ea = authenticated_named a ha in
      let eb = authenticated_named b hb in (rw (ea, eb), rw (ea, eb))
