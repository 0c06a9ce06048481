-- ===== src/Api/Fakes/Streams.antt =====
-- The loop over `stream.Recv` of `Add` in internal/api/v1/keeper_service.go, on the fake stream of
-- internal/api/v1/test-helpers.go.
use gophkeeper.Base.{
  ℕ, zero, suc, ◌+◌, ◌<◌, ◌≤◌, Bool, ◌≡◌, refl, ap, ◌∙◌, String, Option, none, some, List, [], ◌∷◌,
  map, ◌++◌, length, drop, arith,
}
use gophkeeper.Base.Go.{Error, new, eof, Outcome, ok, err, panic, Prog}
use gophkeeper.Api.Fakes.{FakeAddStream, recv}
use gophkeeper.Api.KeeperService.{AddRequest, receive, recv_failed, cons_ok, agent_wrong}

module _ {St Timestamp : Type 0} (error_text : Error → String)
    (stream_recv : Prog St (AddRequest Timestamp)) where
  abbrev cons_received :
      AddRequest Timestamp
      → Outcome (List (AddRequest Timestamp)) × St
      → Outcome (List (AddRequest Timestamp)) × St
  cons_received req (r, s) = (cons_ok error_text req r, s)

  abbrev received :
      Prog St (List (AddRequest Timestamp))
      → Outcome (AddRequest Timestamp) × St
      → Outcome (List (AddRequest Timestamp)) × St
  received rest (ok req, s) = cons_received req (rest s)
  received rest (err e, s) = (recv_failed error_text e, s)
  received rest (panic p, s) = (panic p, s)

  -- The loop as it is written: it ends at the first call of Recv that fails. `fuel` bounds the
  -- number of calls, and running out of it shows as a panic.
  unfoldable pub receive_loop : ℕ → Prog St (List (AddRequest Timestamp))
  receive_loop zero s = (panic "out of fuel", s)
  receive_loop (suc fuel) s = received (receive_loop fuel) (stream_recv s)

drop_next :
    {A : Type 0} (n : ℕ) (xs : List A) (y : A) (ys : List A)
    → drop n xs ≡ y ∷ ys
    → drop (suc n) xs ≡ ys
drop_next zero [] y ys h = cc
drop_next (suc n) [] y ys h = cc
drop_next zero (x ∷ xs) y ys h = cc
drop_next (suc n) (x ∷ xs) y ys h = drop_next n xs y ys h

module _ {Timestamp : Type 0} where
  -- what Recv of this stream returns from now on, up to the error that ends it
  abbrev pub inbox_of :
      Option (List (AddRequest Timestamp)) → ℕ → List (Outcome (AddRequest Timestamp))
  inbox_of none i = err (new "[]requests is nil") ∷ []
  inbox_of (some reqs) i = map (λ r. ok r) (drop i reqs) ++ err eof ∷ []

  -- the stream once it is read to its end
  abbrev pub drained :
      FakeAddStream Timestamp → Option (List (AddRequest Timestamp)) → FakeAddStream Timestamp
  drained f none = f
  drained f (some reqs) = record f { i = f.i + length (drop f.i reqs) }

  -- the requests that are left, or the answer to nil requests
  abbrev pub left : Option (List (AddRequest Timestamp)) → ℕ → Outcome (List (AddRequest Timestamp))
  left none i = err agent_wrong
  left (some reqs) i = ok (drop i reqs)

module _ {Timestamp : Type 0} (error_text : Error → String) where
  module _ (resp : Option (Unit {0})) (reqs : List (AddRequest Timestamp)) (sent_close : Bool) where
    abbrev at : ℕ → FakeAddStream Timestamp
    at i = record { resp = resp; reqs = some reqs; i = i; sent_close = sent_close }

    rest_received :
        (rest : List (AddRequest Timestamp)) (i fuel : ℕ)
        → drop i reqs ≡ rest
        → length rest < fuel
        → receive_loop error_text (recv Timestamp) fuel (at i)
          ≡ (receive error_text (map (λ r. ok r) rest ++ err eof ∷ []), at (i + length rest))
    unfolding receive_loop receive
    rest_received rest i zero here enough = ground arith
    rest_received [] i (suc fuel) here enough = rw here (ap (λ j. (ok [], at j)) (omega arith))
    rest_received (r ∷ rest) i (suc fuel) here enough = rw here (
        ap (cons_received error_text (recv Timestamp) r)
          (rest_received rest (suc i) fuel (drop_next i reqs r rest here) (omega (arith, enough)))
        ∙ ap
            (λ j. (
              cons_ok error_text r (receive error_text (map (λ x. ok x) rest ++ err eof ∷ [])),
              at j,
            ))
            (omega arith))

  length-inbox :
      (rs : List (AddRequest Timestamp))
      → length (map (λ r. ok r) rs ++ err eof ∷ []) ≡ suc (length rs)
  length-inbox [] = refl
  length-inbox (r ∷ rs) = ap suc (length-inbox rs)

  received_whole :
      (rs : List (AddRequest Timestamp))
      → receive error_text (map (λ r. ok r) rs ++ err eof ∷ []) ≡ ok rs
  unfolding receive
  received_whole [] = refl
  received_whole (r ∷ rs) = ap (cons_ok error_text r) (received_whole rs)

  abbrev Drains : FakeAddStream Timestamp → ℕ → Type 0
  Drains f fuel =
      (receive_loop error_text (recv Timestamp) fuel f ≡ (left f.reqs f.i, drained f f.reqs))
      × (receive error_text (inbox_of f.reqs f.i) ≡ left f.reqs f.i)

  stream-Drains :
      (resp : Option (Unit {0})) (o : Option (List (AddRequest Timestamp))) (i : ℕ) (c : Bool)
      (fuel : ℕ)
      → length (inbox_of o i) ≤ fuel
      → Drains (record { resp = resp; reqs = o; i = i; sent_close = c }) fuel
  unfolding receive_loop receive
  stream-Drains resp none i c zero enough = ground arith
  stream-Drains resp none i c (suc fuel) enough = (refl, refl)
  stream-Drains resp (some reqs) i c fuel enough =
      let whole = received_whole (drop i reqs) in
      (
        rest_received resp reqs c (drop i reqs) i fuel refl
              (omega (arith, enough, length-inbox (drop i reqs)))
            ∙ ap (λ r. (r, at resp reqs c (i + length (drop i reqs)))) whole,
        whole,
      )

  -- The loop over Recv on the fake stream, wherever the stream stands, given as much fuel as there
  -- are calls left to its end: it returns the requests that are left, in their order, and leaves
  -- the stream at its end; where the requests are nil it returns the handler's answer to an error
  -- of Recv. The list of Recv's results, received as `Add` does, comes to the same.
  pub receive_loop-receive :
      (f : FakeAddStream Timestamp) (fuel : ℕ)
      → length (inbox_of f.reqs f.i) ≤ fuel
      → (receive_loop error_text (recv Timestamp) fuel f ≡ (left f.reqs f.i, drained f f.reqs))
        × (receive error_text (inbox_of f.reqs f.i) ≡ left f.reqs f.i)
  receive_loop-receive f fuel enough = stream-Drains f.resp f.reqs f.i f.sent_close fuel enough
