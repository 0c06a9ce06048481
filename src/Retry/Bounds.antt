-- ===== src/Retry/Bounds.antt =====
-- What `WithRetry` of internal/repo/db/common.go guarantees: it ends, how often it runs the query
-- and how long it sleeps, and what carries over from the query to the whole call.
use gophkeeper.Base.{
  ℕ, zero, suc, ◌+◌, ◌*◌, ◌-◌, ◌≤◌, ◌<◌, ◌≡◌, refl, ap, String, false, Option, none, some,
  Bool-cases, inl, inr, leb, arith,
}
use gophkeeper.Base.Go.{Error, wrap, Outcome, ok, err, panic, Prog}
use native.Mathlib.Nat.{add-zero}
use gophkeeper.Retry.{is_retryable_error, max_attempt_count, attempted, retry, finished, with_retry}

module _ {S : Type 0} (sleep : ℕ → S → S) {T : Type 0} (db_query : Prog S T) (calls slept : S → ℕ)
    (counts : (s : S) → (calls (db_query s).1 ≡ calls s + 1) × (slept (db_query s).1 ≡ slept s))
    (sleeps : (k : ℕ) (s : S)
      → (slept (sleep k s) ≡ slept s + k) × (calls (sleep k s) ≡ calls s)) where
  -- `extra` repetitions after the first run, from the call with this counter
  record Rounds (counter : ℕ) (s : S) (o : Option (Outcome T × S)) : Type 0 where
    r : Outcome T × S
    extra : ℕ
    returned : o ≡ some r
    bounded : counter + extra ≤ max_attempt_count
    called : calls r.1 ≡ calls s + 1 + extra
    rested : slept r.1 + counter * counter ≡ slept s + (counter + extra) * (counter + extra)

  last-Rounds :
      (counter : ℕ) (s : S) (x : Outcome T) (t : S)
      → counter ≤ max_attempt_count
      → calls t ≡ calls s + 1
      → slept t ≡ slept s
      → Rounds counter s (some (x, t))
  last-Rounds counter s x t h c z = record {
    r = (x, t);
    extra = 0;
    returned = refl;
    bounded = omega arith;
    called = omega arith;
    rested = grind (arith, ap (λ (n : ℕ). n * n) (add-zero counter));
  }

  again-Rounds :
      (counter : ℕ) (s t : S) (o : Option (Outcome T × S))
      → calls t ≡ calls s + 1
      → slept t ≡ slept s
      → Rounds (counter + 1) (sleep (counter * 2 + 1) t) o
      → Rounds counter s o
  again-Rounds counter s t o c z d = record {
    r = d.r;
    extra = d.extra + 1;
    returned = d.returned;
    bounded = omega (arith, d.bounded);
    called = omega (arith, d.called, (sleeps (counter * 2 + 1) t).1);
    rested = omega (arith, d.rested, (sleeps (counter * 2 + 1) t).0);
  }

  attempted-Rounds :
      (again : ℕ → S → Option (Outcome T × S)) (counter : ℕ) (s : S) (r : Outcome T × S)
      → counter ≤ max_attempt_count
      → calls r.1 ≡ calls s + 1
      → slept r.1 ≡ slept s
      → ((t : S) → counter < max_attempt_count → Rounds (counter + 1) t (again (counter + 1) t))
      → Rounds counter s (attempted sleep again counter r)
  unfolding attempted
  attempted-Rounds again counter s (ok x, t) h c z ih = last-Rounds counter s (ok x) t h c z
  attempted-Rounds again counter s (panic p, t) h c z ih = last-Rounds counter s (panic p) t h c z
  attempted-Rounds again counter s (err e, t) h c z ih =
      elim (Bool-cases (leb max_attempt_count counter)) [
        | inl last ↦ rw last (last-Rounds counter s _ t h c z)
        | inr more ↦ elim (Bool-cases (is_retryable_error e)) [
          | inl yes_again ↦
              rw (more, yes_again)
                (again-Rounds counter s t _ c z (ih (sleep (counter * 2 + 1) t) (ground arith)))
          | inr final ↦ rw (more, final) (last-Rounds counter s _ t h c z)
        ]
      ]

  retry-Rounds :
      (fuel counter : ℕ) (s : S)
      → counter + fuel ≡ max_attempt_count
      → Rounds counter s (retry sleep (suc fuel) db_query counter s)
  unfolding retry
  retry-Rounds zero counter s h =
      attempted-Rounds (retry sleep zero db_query) counter s (db_query s) (omega arith) (counts s).0
        (counts s).1 (λ t q. absurd (omega arith))
  retry-Rounds (suc fuel) counter s h =
      attempted-Rounds (retry sleep (suc fuel) db_query) counter s (db_query s) (omega arith)
        (counts s).0 (counts s).1 (λ t q. retry-Rounds fuel (counter + 1) t (omega arith))

  -- Where each run of the query counts one call and sleeping only counts its seconds: `WithRetry`
  -- from counter 0 comes back with a result of the retry loop, after n + 1 runs of the query with
  -- n at most 3, and after n * n seconds of sleep in all, so at most 4 runs and 9 seconds.
  pub with_retry_bounds :
      (s : S)
      → (n : ℕ) × (n ≤ 3)
        × (retry sleep 4 db_query 0 s ≡ some (with_retry sleep db_query 0 s))
        × (calls (with_retry sleep db_query 0 s).1 ≡ calls s + 1 + n)
        × (slept (with_retry sleep db_query 0 s).1 ≡ slept s + n * n)
  unfolding with_retry
  with_retry_bounds s =
      let d = retry-Rounds 3 0 s (omega arith) in
      rw d.returned (d.extra, omega (arith, d.bounded), refl, d.called, omega (arith, d.rested))

-- How a call ends: `Q` where it succeeds, `I` otherwise, and `F` of its error.
abbrev pub Ends :
    {S T : Type 0} → (S → Type 0) → (T → S → Type 0) → (Error → Type 0) → Outcome T × S → Type 0
Ends I Q F (ok a, t) = Q a t
Ends I Q F (err e, t) = I t × F e
Ends I Q F (panic p, t) = I t

module _ {S : Type 0} (sleep : ℕ → S → S) {T : Type 0} (db_query : Prog S T) (I : S → Type 0)
    (Q : T → S → Type 0) (F : Error → Type 0) (ends : (s : S) → I s → Ends I Q F (db_query s))
    (idle : (k : ℕ) (s : S) → I s → I (sleep k s))
    (wraps : (m : String) (e : Error) → F e → F (wrap m e)) where
  -- the fuel may run out here
  abbrev MayEnd : Option (Outcome T × S) → Type 0
  MayEnd none = Unit
  MayEnd (some r) = Ends I Q F r

  attempted-MayEnd :
      (again : ℕ → S → Option (Outcome T × S)) (counter : ℕ) (r : Outcome T × S)
      → Ends I Q F r
      → ((t : S) → I t → MayEnd (again (counter + 1) t))
      → MayEnd (attempted sleep again counter r)
  unfolding attempted
  attempted-MayEnd again counter (ok x, t) h ih = h
  attempted-MayEnd again counter (panic p, t) h ih = h
  attempted-MayEnd again counter (err e, t) h ih =
      elim (Bool-cases (leb max_attempt_count counter)) [
        | inl last ↦ rw last (h.0, wraps _ e h.1)
        | inr more ↦ elim (Bool-cases (is_retryable_error e)) [
          | inl yes_again ↦
              rw (more, yes_again) (ih (sleep (counter * 2 + 1) t) (idle (counter * 2 + 1) t h.0))
          | inr final ↦ rw (more, final) (h.0, wraps _ e h.1)
        ]
      ]

  retry-MayEnd : (fuel counter : ℕ) (s : S) → I s → MayEnd (retry sleep fuel db_query counter s)
  unfolding retry
  retry-MayEnd zero counter s h = tt
  retry-MayEnd (suc fuel) counter s h =
      attempted-MayEnd (retry sleep fuel db_query) counter (db_query s) (ends s h)
        (λ t q. retry-MayEnd fuel (counter + 1) t q)

  finished-Ends :
      (s : S) (o : Option (Outcome T × S)) → I s → MayEnd o → Ends I Q F (finished sleep s o)
  finished-Ends s none h d = h
  finished-Ends s (some r) h d = d

  -- What holds of a query, from any state that keeps an invariant, holds of the whole call: the
  -- invariant after a failure, the result's property after a success, and a property of errors
  -- that wrapping keeps.
  pub with_retry_rule :
      (counter : ℕ) (s : S) → I s → Ends I Q F (with_retry sleep db_query counter s)
  unfolding with_retry
  with_retry_rule counter s h =
      finished-Ends s (retry sleep (suc (max_attempt_count - counter)) db_query counter s) h
        (retry-MayEnd (suc (max_attempt_count - counter)) counter s h)

module _ {S : Type 0} (sleep : ℕ → S → S) {T : Type 0} (db_query : Prog S T) where
  pub with_retry_ok :
      (counter : ℕ) (s t : S) (a : T)
      → db_query s ≡ (ok a, t)
      → with_retry sleep db_query counter s ≡ (ok a, t)
  unfolding with_retry retry attempted
  with_retry_ok counter s t a e = rw e

  -- an error that no attempt can mend ends the call at once
  pub with_retry_err :
      (counter : ℕ) (s t : S) (e : Error)
      → db_query s ≡ (err e, t)
      → is_retryable_error e ≡ false
      → (m : String) × (with_retry sleep db_query counter s ≡ (err (wrap m e), t))
  unfolding with_retry retry attempted
  with_retry_err counter s t e q final = elim (Bool-cases (leb max_attempt_count counter)) [
    | inl last ↦ rw (q, last) (_, refl)
    | inr more ↦ rw (q, more, final) (_, refl)
  ]
