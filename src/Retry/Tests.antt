-- ===== src/Retry/Tests.antt =====
-- The retry theorems at a query that fails twice by a connection error.
use gophkeeper.Base.{ℕ, zero, suc, ◌+◌, ◌*◌, ◌≤◌, ◌≡◌, refl, some}
use gophkeeper.Base.Go.{pg, Outcome, ok, err, Prog}
use gophkeeper.Retry.{retry, with_retry}
use gophkeeper.Retry.Bounds.{with_retry_bounds}

-- runs so far, seconds slept, failures to come
record Log : Type 0 where
  runs : ℕ
  seconds : ℕ
  failures : ℕ

abbrev answer : ℕ → Log → Outcome ℕ × Log
answer zero s = (ok 7, record s { runs = s.runs + 1 })
answer (suc n) s = (err (pg "08006"), record s { runs = s.runs + 1; failures = n })

abbrev query : Prog Log ℕ
query s = answer s.failures s

abbrev sleep : ℕ → Log → Log
sleep k s = record s { seconds = s.seconds + k }

abbrev start : Log
start = record { runs = 0; seconds = 0; failures = 2 }

answer_counts :
    (n : ℕ) (s : Log) → ((answer n s).1.runs ≡ s.runs + 1) × ((answer n s).1.seconds ≡ s.seconds)
answer_counts zero s = (refl, refl)
answer_counts (suc n) s = (refl, refl)

with_retry_run :
    with_retry sleep query 0 start ≡ (ok 7, record { runs = 3; seconds = 4; failures = 0 })
unfolding with_retry
with_retry_run = refl

with_retry_bounds_example :
    (n : ℕ) × (n ≤ 3)
    × (retry sleep 4 query 0 start ≡ some (with_retry sleep query 0 start))
    × ((with_retry sleep query 0 start).1.runs ≡ 0 + 1 + n)
    × ((with_retry sleep query 0 start).1.seconds ≡ 0 + n * n)
with_retry_bounds_example =
    with_retry_bounds sleep query (λ s. s.runs) (λ s. s.seconds) (λ s. answer_counts s.failures s)
      (λ k s. (refl, refl)) start
