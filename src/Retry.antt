-- ===== src/Retry.antt =====
-- `WithRetry` and `isRetryableError` of internal/repo/db/common.go.
pub mod Bounds
mod Tests
use Prim.Native.String.{◌++◌}
use gophkeeper.Base.{
  ℕ, zero, suc, ◌+◌, ◌*◌, ◌-◌, ◌/◌, ◌%◌, String, Bool, true, false, ◌||◌, Option, none, some, ltb,
  leb, str_eq, ◌==◌, if◌then◌else◌,
}
use gophkeeper.Base.Texts.{itoa}
use gophkeeper.Base.Go.{Error, wrap, Outcome, ok, err, panic, Prog, errors_as_pg}

-- The SQLSTATEs of the pgerrcode constants that the switch names, in its order.
abbrev retryable_code : String → Bool
retryable_code c =
    str_eq c "08000"
    || (str_eq c "08003"
        || (str_eq c "08006"
            || (str_eq c "57P03" || (str_eq c "08001" || (str_eq c "08004" || str_eq c "08007")))))

abbrev retryable : Option String → Bool
retryable none = false
retryable (some c) = retryable_code c

unfoldable pub is_retryable_error : Error → Bool
is_retryable_error e = retryable (errors_as_pg e)

abbrev pub max_attempt_count : ℕ
max_attempt_count = 3

-- `sleep k` is `time.Sleep` of `k` seconds.
module _ {S : Type 0} (sleep : ℕ → S → S) {T : Type 0} where
  -- What follows the query of the call with this counter. `again` is the recursive call.
  unfoldable pub attempted :
      (ℕ → S → Option (Outcome T × S)) → ℕ → Outcome T × S → Option (Outcome T × S)
  unfolding is_retryable_error itoa
  attempted again counter (ok res, s) = some (ok res, s)
  attempted again counter (panic p, s) = some (panic p, s)
  attempted again counter (err e, s) =
      if leb max_attempt_count counter
      then some (err (wrap "reatempt failed" e), s)
      else if is_retryable_error e
      then again (counter + 1) (sleep (counter * 2 + 1) s)
      else some (err (wrap ("on attempt #" ++ (itoa 20 counter ++ " error occured")) e), s)

  -- `none` means that the fuel ran out.
  unfoldable pub retry : ℕ → Prog S T → ℕ → S → Option (Outcome T × S)
  unfolding attempted
  retry zero db_query counter s = none
  retry (suc fuel) db_query counter s = attempted (retry fuel db_query) counter (db_query s)

  abbrev finished : S → Option (Outcome T × S) → Outcome T × S
  finished s (some r) = r
  finished s none = (panic "out of fuel", s)

  -- One call for each counter up to the last.
  unfoldable pub with_retry : Prog S T → ℕ → Prog S T
  unfolding retry
  with_retry db_query counter s =
      finished s (retry (suc (max_attempt_count - counter)) db_query counter s)
