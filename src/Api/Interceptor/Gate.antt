-- ===== src/Api/Interceptor/Gate.antt =====
-- Whom `AuthInterceptor` of internal/api/api.go lets through to a unary handler.
use gophkeeper.Base.{String, ◌≡◌, refl, Option, none, some, List, [], ◌∷◌}
use gophkeeper.Base.Texts.{trim_prefix}
use gophkeeper.Base.Go.{Error, Outcome, ok, err, panic, Prog}
use gophkeeper.Model.{UserId}
use gophkeeper.Session.{SessionManager, md_key_authorisation, auth_token_prefix}
use gophkeeper.Api.Context.{ContextValue, user_id}
use gophkeeper.Api.Interceptor.{Headers, serve_unary, authentication_error, index_out_of_range}

module _ {S : Type 0} (manager : SessionManager S) (Request Response : Type 0) where
  abbrev pub Handler : Type 0
  Handler = ContextValue → Request → Prog S Response

  abbrev validate : String → S → Outcome UserId × S
  validate value s = manager.validate_access_token (trim_prefix value auth_token_prefix) s

  -- this result for every request, and no handler runs
  abbrev pub Ends : Option Headers → S → Outcome Response × S → Type 0
  Ends incoming s r =
      (req : Request) (handler : Handler) → serve_unary manager incoming req handler s ≡ r

  -- How a unary call goes on with the headers it came with.
  pub data Gate (incoming : Option Headers) (s : S) : Type 0 where
    no_metadata : incoming ≡ none → Ends incoming s (err authentication_error, s) → Gate incoming s
    no_header :
        (md : Headers)
        → incoming ≡ some md
        → md md_key_authorisation ≡ []
        → Ends incoming s (panic index_out_of_range, s)
        → Gate incoming s
    refused :
        (md : Headers) (value : String) (others : List String) (e : Error) (t : S)
        → incoming ≡ some md
        → md md_key_authorisation ≡ value ∷ others
        → validate value s ≡ (err e, t)
        → Ends incoming s (err authentication_error, t)
        → Gate incoming s
    crashed :
        (md : Headers) (value : String) (others : List String) (m : String) (t : S)
        → incoming ≡ some md
        → md md_key_authorisation ≡ value ∷ others
        → validate value s ≡ (panic m, t)
        → Ends incoming s (panic m, t)
        → Gate incoming s
    let_in :
        (md : Headers) (value : String) (others : List String) (caller : UserId) (t : S)
        → incoming ≡ some md
        → md md_key_authorisation ≡ value ∷ others
        → validate value s ≡ (ok caller, t)
        → ((req : Request) (handler : Handler)
            → serve_unary manager incoming req handler s ≡ handler (user_id caller) req t)
        → Gate incoming s

  valued :
      (md : Headers) (s : S) (value : String) (others : List String) (v : Outcome UserId × S)
      → md md_key_authorisation ≡ value ∷ others
      → validate value s ≡ v
      → Gate (some md) s
  unfolding serve_unary
  valued md s value others (ok caller, t) h q =
      let_in md value others caller t refl h q (λ req handler. rw (h, q))
  valued md s value others (err e, t) h q =
      refused md value others e t refl h q (λ req handler. rw (h, q))
  valued md s value others (panic m, t) h q =
      crashed md value others m t refl h q (λ req handler. rw (h, q))

  headed :
      (md : Headers) (s : S) (values : List String)
      → md md_key_authorisation ≡ values
      → Gate (some md) s
  unfolding serve_unary
  headed md s [] h = no_header md refl h (λ req handler. rw h)
  headed md s (value ∷ others) h = valued md s value others (validate value s) h refl

  -- The handler of a unary method runs, as the user of the token, exactly where the first value of
  -- the authorization header is a valid token once its prefix is cut. Without metadata, or with a
  -- token that is refused, the call ends as Unauthenticated; without the header it panics.
  pub serve_unary-Gate : (incoming : Option Headers) (s : S) → Gate incoming s
  unfolding serve_unary
  serve_unary-Gate none s = no_metadata refl (λ req handler. refl)
  serve_unary-Gate (some md) s = headed md s (md md_key_authorisation) refl
