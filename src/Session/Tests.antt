-- ===== src/Session/Tests.antt =====
-- The session theorem on a database of one user.
use gophkeeper.Base.{◌+◌, ◌*◌, ◌^◌, ◌≡◌, refl, some, none, [], ◌∷◌}
use gophkeeper.Base.Go.{new, ok, err, pure}
use gophkeeper.Database.{Database, Server}
use gophkeeper.Sqlc
use gophkeeper.Tokens.{Jwt, Sources, Generator}
use gophkeeper.Repo.Tokens.{as_storage}
use gophkeeper.Session.{new_manager, create_session, validate_refresh_token}
use gophkeeper.Session.Life.{validate-create_session}

abbrev server : Server
server = record {
  fault = λ k. none;
  gen_random_uuid = λ k. k + 100;
  parse_uuid = λ s. some 7;
  parse_error = new "invalid UUID";
  uuid_string = λ u. "7";
}

abbrev jwt : Jwt
jwt = record {
  new_numeric_date = λ n. n;
  signed_string = λ alg c key. ok "token";
  parse_with_claims = λ token keys leeway methods t. err (new "invalid");
}

abbrev sources : Sources Database
sources = record { now = λ d. d.now; generate_random = λ n. pure (4 ∷ []) }

abbrev generator : Generator
generator = record { secret = 3 ∷ [] }

abbrev database : Database
database = record {
  users = record { id = 7; login_hash = 9 ∷ []; password_phc = "phc" } ∷ [];
  refresh_tokens = [];
  objects = [];
  secret_blobs = [];
  chunk_manifest = [];
  now = 10;
  rounds = 0;
}

abbrev opened : Database
opened = record database {
  refresh_tokens =
      record { user_id = 7; token_hash = 4 ∷ []; expires_at = 10 + 15 * (24 * 60 * 60 * 10 ^ 9) }
      ∷ [];
  rounds = 1;
}

validate-create_session_example :
    (validate_refresh_token jwt sources
      (λ b. b)
      (new_manager (as_storage server) generator)
      (4 ∷ [])
      "7"
      opened).0
    ≡ ok tt
unfolding create_session new_manager as_storage Sqlc.save
validate-create_session_example =
    validate-create_session server (λ k. refl) jwt sources (λ d. refl) (λ n d. refl) (λ b. b)
      generator "7" 7 "token" (4 ∷ []) database opened refl refl tt refl
