-- ===== src/Repo/Tokens/Tests.antt =====
-- The token theorems on a database of one user and one older token.
use gophkeeper.Base.{◌+◌, ◌≡◌, ◌≢◌, refl, true, false, some, none, List, [], ◌∷◌, arith}
use gophkeeper.Base.Go.{new}
use gophkeeper.Model.{Bytes}
use gophkeeper.Database.{Database, Server}
use gophkeeper.Sqlc
use gophkeeper.Sqlc.{has_user}
use gophkeeper.Repo.Tokens.Map.{
  Call, save_token, validate_token, drop_token, later, on_map_all, on_database_all, as_store,
}
use gophkeeper.Repo.Tokens.Refinement.{on_database_all-on_map_all}
use gophkeeper.Repo.Tokens.{save, validate, delete}

abbrev server : Server
server = record {
  fault = λ k. none;
  gen_random_uuid = λ k. k + 100;
  parse_uuid = λ s. some 7;
  parse_error = new "invalid UUID";
  uuid_string = λ u. "7";
}

abbrev old : Bytes
old = 1 ∷ []

abbrev fresh : Bytes
fresh = 2 ∷ []

abbrev database : Database
database = record {
  users = record { id = 7; login_hash = 9 ∷ []; password_phc = "phc" } ∷ [];
  refresh_tokens = record { user_id = 7; token_hash = old; expires_at = 50 } ∷ [];
  objects = [];
  secret_blobs = [];
  chunk_manifest = [];
  now = 10;
  rounds = 0;
}

old-fresh : old ≢ fresh
old-fresh p = ground arith

abbrev calls : List Call
calls =
    save_token fresh "7" 60
    ∷ validate_token fresh "7"
    ∷ later 50
    ∷ validate_token fresh "7"
    ∷ save_token fresh "7" 90
    ∷ validate_token fresh "7"
    ∷ drop_token fresh
    ∷ validate_token fresh "7"
    ∷ []

calls_run :
    on_database_all server calls database
    ≡ true ∷ true ∷ true ∷ false ∷ true ∷ true ∷ true ∷ false ∷ []
unfolding on_database_all save validate delete Sqlc.save Sqlc.validate Sqlc.delete_token
calls_run = refl

on_database_all-on_map_all_example :
    on_database_all server calls database
    ≡ on_map_all server.parse_uuid (λ u. has_user u database) calls (as_store database)
on_database_all-on_map_all_example =
    on_database_all-on_map_all server (λ u. has_user u database) (λ k. refl) refl calls database
      (λ u. refl) (refl, tt)
