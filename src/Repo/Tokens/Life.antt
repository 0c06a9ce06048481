-- ===== src/Repo/Tokens/Life.antt =====
-- What Save and Delete of internal/repo/db/token_repo.go mean for a later Validate.
use gophkeeper.Base.{
  ℕ, ◌+◌, ◌≡◌, ◌≢◌, ◌↔◌, ◌<◌, ◌≤◌, refl, subst, sym, ◌∙◌, Bool, Bool-cases, inl, inr, true, false,
  not, none, some, List, [], ◌∷◌, arith, ltb, bytes_eq, bytes_eq_refl, bytes_eq_sound,
}
use gophkeeper.Base.Go.{Error, new, Outcome, ok, err, ◌>>=◌}
use gophkeeper.Model.{Bytes, UserId}
use gophkeeper.Database.{Uuid, Database, Server, RefreshToken, any, filter, sleep}
use gophkeeper.Sqlc
use gophkeeper.Sqlc.{SaveParams, has_user, upsert_token}
use gophkeeper.Retry.{is_retryable_error}
use gophkeeper.Retry.Bounds.{with_retry_ok, with_retry_err}
use gophkeeper.Repo.Tokens.Unique.{has_hash, AreUnique}
use gophkeeper.Repo.Tokens.{save, save_logic, validate, validate_logic, delete, delete_logic}

module _ (srv : Server) where
  abbrev pub live : Bytes → Uuid → ℕ → List RefreshToken → Bool
  live h u now ts = any (Sqlc.live_token srv h u now) ts

  -- a hash that is not in the table is not live there
  pub live_absent :
      (h : Bytes) (u : Uuid) (now : ℕ) (ts : List RefreshToken)
      → has_hash h ts ≡ false
      → live h u now ts ≡ false
  live_absent h u now [] e = refl
  live_absent h u now (t ∷ ts) e = ground (arith, live_absent h u now ts, e)

  live-upsert_token :
      (p : SaveParams) (now : ℕ) (ts : List RefreshToken)
      → AreUnique ts
      → live p.token_hash p.user_id now (upsert_token p ts) ≡ ltb now p.expires_at
  live-upsert_token p now [] q = rw (bytes_eq_refl p.token_hash) (ground arith)
  live-upsert_token p now (t ∷ ts) q = elim (Bool-cases (bytes_eq t.token_hash p.token_hash)) [
    | inl here ↦ rw here (
        rw
          (
            here,
            live_absent p.token_hash p.user_id now ts (
                subst (λ h. has_hash h ts ≡ false) (bytes_eq_sound t.token_hash p.token_hash here)
                  q.0),
          )
          (ground arith))
    | inr other ↦ rw other (rw other (live-upsert_token p now ts q.1))
  ]

  live-filter_same :
      (h : Bytes) (u : Uuid) (now : ℕ) (ts : List RefreshToken)
      → live h u now (filter (λ t. not (bytes_eq t.token_hash h)) ts) ≡ false
  live-filter_same h u now [] = refl
  live-filter_same h u now (t ∷ ts) = elim (Bool-cases (bytes_eq t.token_hash h)) [
    | inl here ↦ rw here (live-filter_same h u now ts)
    | inr other ↦ rw other (rw other (live-filter_same h u now ts))
  ]

  live-filter_other :
      (h other : Bytes) (u : Uuid) (now : ℕ) (ts : List RefreshToken)
      → other ≢ h
      → live other u now (filter (λ t. not (bytes_eq t.token_hash h)) ts) ≡ live other u now ts
  live-filter_other h other u now [] differs = refl
  live-filter_other h other u now (t ∷ ts) differs = elim (Bool-cases (bytes_eq t.token_hash h)) [
    | inl here ↦ rw here (live-filter_other h other u now ts differs ∙ sym (rw (unlike here) refl))
    | inr far ↦ rw far (rw (live-filter_other h other u now ts differs) refl)
  ]
    where
      unlike : bytes_eq t.token_hash h ≡ true → bytes_eq t.token_hash other ≡ false
      unlike here = elim (Bool-cases (bytes_eq t.token_hash other)) [
        | inl both ↦ absurd (
            differs
              (sym (bytes_eq_sound t.token_hash other both) ∙ bytes_eq_sound t.token_hash h here))
        | inr far ↦ far
      ]

  module _ (answers : (k : ℕ) → srv.fault k ≡ none) where
    abbrev pub counted : Database → Database
    counted d = record d { rounds = d.rounds + 1 }

    -- Validate asks only for a live token of this hash and this user.
    valid :
        (h : Bytes) (user : UserId) (u : Uuid) (d : Database)
        → srv.parse_uuid user ≡ some u
        → live h u d.now d.refresh_tokens ≡ true
        → (validate srv h user d).0 ≡ ok tt
    unfolding validate Sqlc.validate
    valid h user u d p l =
        rw
          (with_retry_ok sleep (validate_logic srv h user) 0 d (counted d) tt
            (rw (p, answers d.rounds) (rw l refl)))
          refl

    invalid :
        (h : Bytes) (user : UserId) (u : Uuid) (d : Database)
        → srv.parse_uuid user ≡ some u
        → live h u d.now d.refresh_tokens ≡ false
        → (e : Error) × ((validate srv h user d).0 ≡ err e)
    unfolding validate Sqlc.validate is_retryable_error
    invalid h user u d p l =
        let (m, q) =
          with_retry_err sleep (validate_logic srv h user) 0 d (counted d) (new "invalid token")
            (rw (p, answers d.rounds) (rw l refl)) refl in
        rw q (_, refl)

    refused : {r : Outcome (Unit {0})} {b : Bool} → r ≡ ok tt → (e : Error) × (r ≡ err e) → b ≡ true
    refused v (e, w) = cc

    valid_only :
        (h : Bytes) (user : UserId) (u : Uuid) (d : Database)
        → srv.parse_uuid user ≡ some u
        → (validate srv h user d).0 ≡ ok tt
        → live h u d.now d.refresh_tokens ≡ true
    valid_only h user u d p v = elim (Bool-cases (live h u d.now d.refresh_tokens)) [
      | inl l ↦ l
      | inr no_more ↦ refused v (invalid h user u d p no_more)
    ]

    pub saved :
        (h : Bytes) (user : UserId) (u : Uuid) (exp : ℕ) (d : Database)
        → srv.parse_uuid user ≡ some u
        → has_user u d ≡ true
        → save srv h user exp d ≡ (
          ok tt,
          record (counted d) {
            refresh_tokens =
                upsert_token
                  (record { user_id = u; token_hash = h; expires_at = exp })
                  d.refresh_tokens;
          },
        )
    unfolding save Sqlc.save
    saved h user u exp d p known =
        with_retry_ok sleep (save_logic srv h user exp) 0 d _ tt
          (rw (p, answers d.rounds) (rw known refl))

    pub deleted :
        (h : Bytes) (d : Database)
        → delete srv h d ≡ (
          ok tt,
          record (counted d) {
            refresh_tokens = filter (λ t. not (bytes_eq t.token_hash h)) d.refresh_tokens;
          },
        )
    unfolding delete Sqlc.delete_token
    deleted h d = with_retry_ok sleep (delete_logic srv h) 0 d _ tt (rw (answers d.rounds) refl)

    -- Where the server answers and the table's hashes are unique: a token that was just saved for a
    -- known user validates for that user if it is still to expire, and is refused otherwise.
    pub validate-save :
        (h : Bytes) (user : UserId) (u : Uuid) (exp : ℕ) (d : Database)
        → srv.parse_uuid user ≡ some u
        → has_user u d ≡ true
        → AreUnique d.refresh_tokens
        → (d.now < exp → ((save srv h user exp >>= λ x. validate srv h user) d).0 ≡ ok tt)
          × (exp ≤ d.now
              → (e : Error) × (((save srv h user exp >>= λ x. validate srv h user) d).0 ≡ err e))
    validate-save h user u exp d p known q =
        let l =
          live-upsert_token (record { user_id = u; token_hash = h; expires_at = exp }) d.now
            d.refresh_tokens q in
        (
          λ now. rw (saved h user u exp d p known) (valid h user u _ p (l ∙ ground arith)),
          λ late. rw (saved h user u exp d p known) (invalid h user u _ p (l ∙ ground arith)),
        )

    -- Where the server answers: a token that was just deleted is refused for every user, and every
    -- other token is as valid as before.
    pub validate-delete :
        (h other : Bytes) (user : UserId) (u : Uuid) (d : Database)
        → srv.parse_uuid user ≡ some u
        → other ≢ h
        → ((e : Error) × (((delete srv h >>= λ x. validate srv h user) d).0 ≡ err e))
          × (((delete srv h >>= λ x. validate srv other user) d).0 ≡ ok tt
              ↔ (validate srv other user d).0 ≡ ok tt)
    validate-delete h other user u d p differs =
        let kept = live-filter_other h other u d.now d.refresh_tokens differs in
        (
          rw (deleted h d) (invalid h user u _ p (live-filter_same h u d.now d.refresh_tokens)),
          rw (deleted h d) (
            λ v. valid other user u d p (sym kept ∙ valid_only other user u _ p v),
            λ v. valid other user u _ p (kept ∙ valid_only other user u d p v),
          ),
        )
