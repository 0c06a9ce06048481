-- ===== src/Api/Server/Stop.antt =====
-- `Stop` of internal/api/api.go: a goroutine that calls GracefulStop and then signals on an
-- unbuffered channel, beside a `select` on that channel and the context.
use gophkeeper.Base.{
  ℕ, suc, ◌+◌, ◌≤◌, ◌≡◌, refl, sym, subst, Bool, true, false, Option, none, some, arith,
}
use gophkeeper.Base.Go.{Error, wrap}

-- The goroutine is in GracefulStop, at its send, behind it, or has closed the channel.
pub data Worker : Type 0 where
  stopping sending sent closed : Worker

-- The caller is in its `select`, or has returned an error or nil (`none`).
pub data Caller : Type 0 where
  waiting : Caller
  returned : Option Error → Caller

-- with whether the context is done
pub data Stop : Type 0 where
  at : Worker → Caller → Bool → Stop

-- `ctx_err` is `ctx.Err()` of the context that is done.
module _ (ctx_err : Error) where
  abbrev pub context_closed : Caller
  context_closed = returned (some (wrap "context closed" ctx_err))

  -- One step of the goroutine, of the caller, or of both where the channel passes a value; a
  -- closed channel is always ready. GracefulStop may take any time, and so may the context.
  pub data Step : Stop → Stop → Type 0 where
    finish : {c : Caller} {x : Bool} → Step (at stopping c x) (at sending c x)
    expire : {w : Worker} {c : Caller} → Step (at w c false) (at w c true)
    give_up : {w : Worker} → Step (at w waiting true) (at w context_closed true)
    hand_over : {x : Bool} → Step (at sending waiting x) (at sent (returned none) x)
    close : {c : Caller} {x : Bool} → Step (at sent c x) (at closed c x)
    receive_closed : {x : Bool} → Step (at closed waiting x) (at closed (returned none) x)

  -- the states after so many steps
  pub data Reach : ℕ → Stop → Type 0 where
    start : Reach 0 (at stopping waiting false)
    later : {n : ℕ} {s t : Stop} → Reach n s → Step s t → Reach (suc n) t

  abbrev count : Bool → ℕ
  count false = 0
  count true = 1

  -- the states that are reached, each after its one number of steps
  Reached : ℕ → Stop → Type 0
  Reached n (at stopping waiting x) = n ≡ count x
  Reached n (at sending waiting x) = n ≡ 1 + count x
  Reached n (at stopping (returned (some e)) true) = (n ≡ 2) × (e ≡ wrap "context closed" ctx_err)
  Reached n (at sending (returned (some e)) true) = (n ≡ 3) × (e ≡ wrap "context closed" ctx_err)
  Reached n (at sent (returned none) x) = n ≡ 2 + count x
  Reached n (at closed (returned none) x) = n ≡ 3 + count x
  Reached n _ = ⊥

  step-Reached : (n : ℕ) {s t : Stop} → Step s t → Reached n s → Reached (suc n) t
  unfolding Reached
  step-Reached n (finish {c = waiting}) h = omega (arith, h)
  step-Reached n (finish {c = returned none}) h = absurd h
  step-Reached n (finish {c = returned (some e)} {x = true}) h = (omega (arith, h.0), h.1)
  step-Reached n (finish {c = returned (some e)} {x = false}) h = absurd h
  step-Reached n (expire {w = stopping} {c = waiting}) h = omega (arith, h)
  step-Reached n (expire {w = sending} {c = waiting}) h = omega (arith, h)
  step-Reached n (expire {w = sent} {c = waiting}) h = absurd h
  step-Reached n (expire {w = closed} {c = waiting}) h = absurd h
  step-Reached n (expire {w = stopping} {c = returned none}) h = absurd h
  step-Reached n (expire {w = sending} {c = returned none}) h = absurd h
  step-Reached n (expire {w = sent} {c = returned none}) h = omega (arith, h)
  step-Reached n (expire {w = closed} {c = returned none}) h = omega (arith, h)
  step-Reached n (expire {w = stopping} {c = returned (some e)}) h = absurd h
  step-Reached n (expire {w = sending} {c = returned (some e)}) h = absurd h
  step-Reached n (expire {w = sent} {c = returned (some e)}) h = absurd h
  step-Reached n (expire {w = closed} {c = returned (some e)}) h = absurd h
  step-Reached n (give_up {w = stopping}) h = (omega (arith, h), refl)
  step-Reached n (give_up {w = sending}) h = (omega (arith, h), refl)
  step-Reached n (give_up {w = sent}) h = absurd h
  step-Reached n (give_up {w = closed}) h = absurd h
  step-Reached n hand_over h = omega (arith, h)
  step-Reached n (close {c = waiting}) h = absurd h
  step-Reached n (close {c = returned none}) h = omega (arith, h)
  step-Reached n (close {c = returned (some e)}) h = absurd h
  step-Reached n receive_closed h = absurd h

  Reach-Reached : {n : ℕ} {s : Stop} → Reach n s → Reached n s
  unfolding Reached
  Reach-Reached start = refl
  Reach-Reached (later {n} r step) = step-Reached n step (Reach-Reached r)

  -- How a state can go on, or how it has ended.
  pub data Outlook : Stop → Type 0 where
    -- neither GracefulStop nor the context has ended
    undecided : Outlook (at stopping waiting false)
    -- the caller can return now
    ready :
        {v w : Worker} {x : Bool} {r : Option Error}
        → Step (at v waiting x) (at w (returned r) x)
        → Outlook (at v waiting x)
    -- nil was returned, and GracefulStop has ended
    graceful : {x : Bool} → Outlook (at sent (returned none) x)
    graceful_closed : {x : Bool} → Outlook (at closed (returned none) x)
    -- the context's error was returned, once the context was done
    timed_out : Outlook (at stopping context_closed true)
    -- as before, and the goroutine can take no step any more
    stuck :
        ((t : Stop) → Step (at sending context_closed true) t → ⊥)
        → Outlook (at sending context_closed true)

  no_step : (t : Stop) → Step (at sending context_closed true) t → ⊥
  no_step t step = elim step [ ]

  timed_out_with :
      (e : Error)
      → e ≡ wrap "context closed" ctx_err
      → Outlook (at stopping (returned (some e)) true)
  timed_out_with e q = subst (λ d. Outlook (at stopping (returned (some d)) true)) (sym q) timed_out

  stuck_with :
      (e : Error)
      → e ≡ wrap "context closed" ctx_err
      → Outlook (at sending (returned (some e)) true)
  stuck_with e q =
      subst (λ d. Outlook (at sending (returned (some d)) true)) (sym q) (stuck no_step)

  Reached-Outlook : (n : ℕ) (s : Stop) → Reached n s → (n ≤ 4) × Outlook s
  unfolding Reached
  Reached-Outlook n (at stopping waiting false) h = (omega (arith, h), undecided)
  Reached-Outlook n (at stopping waiting true) h = (omega (arith, h), ready give_up)
  Reached-Outlook n (at sending waiting false) h = (omega (arith, h), ready hand_over)
  Reached-Outlook n (at sending waiting true) h = (omega (arith, h), ready hand_over)
  Reached-Outlook n (at stopping (returned (some e)) true) h =
      (omega (arith, h.0), timed_out_with e h.1)
  Reached-Outlook n (at sending (returned (some e)) true) h = (omega (arith, h.0), stuck_with e h.1)
  Reached-Outlook n (at sent (returned none) false) h = (omega (arith, h), graceful)
  Reached-Outlook n (at sent (returned none) true) h = (omega (arith, h), graceful)
  Reached-Outlook n (at closed (returned none) false) h = (omega (arith, h), graceful_closed)
  Reached-Outlook n (at closed (returned none) true) h = (omega (arith, h), graceful_closed)
  Reached-Outlook n s h = absurd h

  -- However GracefulStop, the context and the two goroutines go on, a state that is reached is at
  -- most four steps in. Where GracefulStop or the context has ended and the caller has not
  -- returned, a step that lets it return can be taken; while neither has ended, nothing is claimed.
  -- It returns nil only after GracefulStop has ended, and otherwise the context's error after the
  -- context is done; a GracefulStop that ends behind that leaves its goroutine at its send for ever.
  pub stop_outlook : (n : ℕ) (s : Stop) → Reach n s → (n ≤ 4) × Outlook s
  stop_outlook n s r = Reached-Outlook n s (Reach-Reached r)
