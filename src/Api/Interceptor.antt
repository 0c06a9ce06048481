-- ===== src/Api/Interceptor.antt =====
-- `AuthInterceptor` of internal/api/api.go, and how the server of that file runs its methods.
pub mod Gate
use gophkeeper.Base.{String, Option, List, [], ◌∷◌, if◌then◌else◌}
use gophkeeper.Base.Texts.{trim_prefix}
use gophkeeper.Base.Go.{
  unauthenticated, Error, status, Outcome, ok, panic, Prog, from_option, lift, map_err, ◌>>=◌,
}
use gophkeeper.Session.{SessionManager, md_key_authorisation, auth_token_prefix}
use gophkeeper.Api.Context.{ContextValue, absent, user_id}

abbrev pub authentication_error : Error
authentication_error = status unauthenticated "authentication error"

abbrev pub index_out_of_range : String
index_out_of_range = "index out of range [0] with length 0"

abbrev pub first : List String → Outcome String
first [] = panic index_out_of_range
first (x ∷ xs) = ok x

-- The incoming metadata of gRPC: the values of each key.
abbrev pub Headers : Type 0
Headers = String → List String

module _ {S Request Response : Type 0} (manager : SessionManager S) where
  -- The handler gets the context with the user of the token.
  unfoldable pub interceptor :
      Option Headers → Request → (ContextValue → Request → Prog S Response) → Prog S Response
  interceptor incoming req handler = do
    md ← from_option authentication_error incoming
    access_token ← lift (first (md md_key_authorisation))
    caller ←
        map_err (λ e. authentication_error)
          (manager.validate_access_token (trim_prefix access_token auth_token_prefix))
    handler (user_id caller) req

  -- The server is built with `ChainUnaryInterceptor` alone: a streaming method runs without the
  -- interceptor, in a context where nothing set the user.
  unfoldable pub serve_unary :
      Option Headers → Request → (ContextValue → Request → Prog S Response) → Prog S Response
  unfolding interceptor
  serve_unary incoming req handler = interceptor incoming req handler

  unfoldable pub serve_stream :
      Option Headers → Request → (ContextValue → Request → Prog S Response) → Prog S Response
  serve_stream incoming req handler = handler absent req
