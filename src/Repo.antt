-- ===== src/Repo.antt =====
-- internal/repo/db: the repositories over the generated queries. Each operation is one query, or
-- several, under `WithRetry` from counter 0.
pub mod Users
pub mod Tokens
pub mod Metadata
pub mod Sealed
use gophkeeper.Base.{String, Option, none, some}
use gophkeeper.Base.Go.{wrap, Outcome, ok, err}
use gophkeeper.Database.{Uuid, Server}

abbrev pub msg_wrong_user_id : String
msg_wrong_user_id = "wrong userID format"

module _ (srv : Server) where
  abbrev pub parsed : Option Uuid → Outcome Uuid
  parsed (some u) = ok u
  parsed none = err (wrap "uuid.Parse()" srv.parse_error)

  abbrev pub to_pg_uuid : String → Outcome Uuid
  to_pg_uuid id = parsed (srv.parse_uuid id)
