-- ===== src/Repo/Tokens/Map.antt =====
-- internal/repo/db/token_repo.go as a map from token hashes to users and times of expiry, and the
-- entries of the table.
use gophkeeper.Base.{
  ℕ, ◌+◌, ◌≡◌, refl, sym, subst, ◌∙◌, Bool, Bool-cases, inl, inr, true, false, not, ◌&&◌, Option,
  none, some, List, [], ◌∷◌, arith, ltb, ◌==◌, bytes_eq, bytes_eq_refl, bytes_eq_sound,
  if◌then◌else◌,
}
use gophkeeper.Base.Go.{Outcome, ok, err, panic}
use gophkeeper.Model.{Bytes, UserId}
use gophkeeper.Database.{Uuid, Database, Server, RefreshToken, any, filter}
use gophkeeper.Sqlc
use gophkeeper.Sqlc.{SaveParams, has_user, upsert_token}
use gophkeeper.Repo.Tokens.Unique.{has_hash, AreUnique}
use gophkeeper.Repo.Tokens.Life.{live_absent}
use gophkeeper.Repo.Tokens.{save, validate, delete}

-- The calls, and time going by.
pub data Call : Type 0 where
  save_token : Bytes → UserId → ℕ → Call
  validate_token : Bytes → UserId → Call
  drop_token : Bytes → Call
  later : ℕ → Call

-- The store as a map; the users are those that have an account.
pub record Store : Type 0 where
  pub entry : Bytes → Option (Uuid × ℕ)
  pub now : ℕ

abbrev pub put_entry :
    Bytes → Option (Uuid × ℕ) → (Bytes → Option (Uuid × ℕ)) → Bytes → Option (Uuid × ℕ)
put_entry h e f k = if bytes_eq h k then e else f k

abbrev pub is_live : Uuid → ℕ → Option (Uuid × ℕ) → Bool
is_live u now none = false
is_live u now (some (v, exp)) = v == u && ltb now exp

module _ (parse : UserId → Option Uuid) (known : Uuid → Bool) where
  abbrev pub saved_entry : Store → Bytes → ℕ → Option Uuid → Bool × Store
  saved_entry s h exp none = (false, s)
  saved_entry s h exp (some u) =
      if known u
      then (true, record s { entry = put_entry h (some (u, exp)) s.entry })
      else (false, s)

  abbrev pub checked_entry : Store → Bytes → Option Uuid → Bool
  checked_entry s h none = false
  checked_entry s h (some u) = is_live u s.now (s.entry h)

  -- whether a call succeeds, and the map after it
  abbrev pub on_map : Call → Store → Bool × Store
  on_map (save_token h user exp) s = saved_entry s h exp (parse user)
  on_map (validate_token h user) s = (checked_entry s h (parse user), s)
  on_map (drop_token h) s = (true, record s { entry = put_entry h none s.entry })
  on_map (later n) s = (true, record s { now = s.now + n })

  abbrev pub then_on : (Store → List Bool) → Bool × Store → List Bool
  then_on rest (b, s) = b ∷ rest s

  unfoldable pub on_map_all : List Call → Store → List Bool
  on_map_all [] s = []
  on_map_all (c ∷ cs) s = then_on (on_map_all cs) (on_map c s)

abbrev pub succeeds : {A : Type 0} → Outcome A → Bool
succeeds (ok a) = true
succeeds (err e) = false
succeeds (panic p) = false

abbrev pub answered : Outcome (Unit {0}) × Database → Bool × Database
answered (r, d) = (succeeds r, d)

module _ (srv : Server) where
  abbrev pub on_database : Call → Database → Bool × Database
  on_database (save_token h user exp) d = answered (save srv h user exp d)
  on_database (validate_token h user) d = answered (validate srv h user d)
  on_database (drop_token h) d = answered (delete srv h d)
  on_database (later n) d = (true, record d { now = d.now + n })

  abbrev pub then_in : (Database → List Bool) → Bool × Database → List Bool
  then_in rest (b, d) = b ∷ rest d

  unfoldable pub on_database_all : List Call → Database → List Bool
  on_database_all [] d = []
  on_database_all (c ∷ cs) d = then_in (on_database_all cs) (on_database c d)

-- the entry of a hash in the table
unfoldable pub lookup : List RefreshToken → Bytes → Option (Uuid × ℕ)
lookup [] h = none
lookup (t ∷ ts) h = if bytes_eq t.token_hash h then some (t.user_id, t.expires_at) else lookup ts h

abbrev pub store_of : (Bytes → Option (Uuid × ℕ)) → ℕ → Store
store_of entry now = record { entry = entry; now = now }

abbrev pub as_store : Database → Store
as_store d = store_of (lookup d.refresh_tokens) d.now

unlike : (a b c : Bytes) → bytes_eq a c ≡ true → bytes_eq a b ≡ false → bytes_eq b c ≡ false
unlike a b c found other = elim (Bool-cases (bytes_eq b c)) [
  | inl both ↦
      let same = bytes_eq_sound a c found ∙ sym (bytes_eq_sound b c both) in
      let equal : bytes_eq a b ≡ true =
        subst (λ (x : Bytes). bytes_eq a x ≡ true) same (bytes_eq_refl a) in
      cc
  | inr far ↦ far
]

pub lookup-upsert_token :
    (p : SaveParams) (ts : List RefreshToken) (h : Bytes)
    → lookup (upsert_token p ts) h
      ≡ put_entry p.token_hash (some (p.user_id, p.expires_at)) (lookup ts) h
unfolding lookup
lookup-upsert_token p [] h = refl
lookup-upsert_token p (t ∷ ts) h = elim (Bool-cases (bytes_eq t.token_hash p.token_hash)) [
  | inl here ↦
      let same = bytes_eq_sound t.token_hash p.token_hash here in
      elim (Bool-cases (bytes_eq p.token_hash h)) [
        | inl asked ↦ rw here (rw (same, asked) refl)
        | inr far ↦ rw here (rw (same, far) refl)
      ]
  | inr other ↦ elim (Bool-cases (bytes_eq t.token_hash h)) [
    | inl found ↦ rw other (rw (found, unlike t.token_hash p.token_hash h found other) refl)
    | inr far ↦ rw other (rw far (lookup-upsert_token p ts h))
  ]
]

pub lookup-filter :
    (gone : Bytes) (ts : List RefreshToken) (h : Bytes)
    → lookup (filter (λ t. not (bytes_eq t.token_hash gone)) ts) h
      ≡ put_entry gone none (lookup ts) h
unfolding lookup
lookup-filter gone [] h = ground arith
lookup-filter gone (t ∷ ts) h = elim (Bool-cases (bytes_eq t.token_hash gone)) [
  | inl here ↦
      let same = bytes_eq_sound t.token_hash gone here in
      elim (Bool-cases (bytes_eq gone h)) [
        | inl asked ↦ rw here (lookup-filter gone ts h ∙ rw asked refl)
        | inr far ↦ rw here (lookup-filter gone ts h ∙ rw (same, far) refl)
      ]
  | inr other ↦ elim (Bool-cases (bytes_eq t.token_hash h)) [
    | inl found ↦ rw other (rw (found, unlike t.token_hash gone h found other) refl)
    | inr far ↦ rw other (rw far (lookup-filter gone ts h))
  ]
]

-- where hashes are unique, a token is live exactly where its entry is
pub live-lookup :
    (srv : Server) (h : Bytes) (u : Uuid) (now : ℕ) (ts : List RefreshToken)
    → AreUnique ts
    → any (Sqlc.live_token srv h u now) ts ≡ is_live u now (lookup ts h)
unfolding lookup
live-lookup srv h u now [] q = refl
live-lookup srv h u now (t ∷ ts) q = elim (Bool-cases (bytes_eq t.token_hash h)) [
  | inl here ↦
      let absent =
        live_absent srv h u now ts
          (subst (λ x. has_hash x ts ≡ false) (bytes_eq_sound t.token_hash h here) q.0) in
      rw (here, absent) (ground arith)
  | inr far ↦ rw far (live-lookup srv h u now ts q.1)
]
