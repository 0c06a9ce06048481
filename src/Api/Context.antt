-- ===== src/Api/Context.antt =====
-- What the handlers of internal/api read of a context, and the errors that they return.
use gophkeeper.Base.{String, Option, none, some, str_eq, if◌then◌else◌}
use gophkeeper.Base.Go.{unauthenticated, status, Outcome, ok, err}
use gophkeeper.Model.{UserId}

-- `ctx.Value(model.ContextKeyUserID)`: nothing, a `model.UserID`, or a value of another type.
pub data ContextValue : Type 0 where
  absent : ContextValue
  user_id : UserId → ContextValue
  other : ContextValue

-- the type assertion to `model.UserID`
abbrev pub as_user_id : ContextValue → Option UserId
as_user_id (user_id u) = some u
as_user_id absent = none
as_user_id other = none

abbrev pub msg_agent_wrong : String
msg_agent_wrong = "agent error"

abbrev pub msg_user_not_authenticated : String
msg_user_not_authenticated = "user not authenticated"

abbrev pub msg_sync_failed : String
msg_sync_failed = "sync failed"

abbrev pub named : Option UserId → Outcome UserId
named none = err (status unauthenticated msg_user_not_authenticated)
named (some u) =
    if str_eq u "" then err (status unauthenticated msg_user_not_authenticated) else ok u

-- `if !ok || userID == ""`, the test at the head of Add, Delete, Get and Sync
abbrev pub authenticated : ContextValue → Outcome UserId
authenticated v = named (as_user_id v)
