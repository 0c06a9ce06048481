-- ===== src/Repo/Tokens/Refinement.antt =====
-- The token repository of internal/repo/db/token_repo.go answers as the map of Map does.
use gophkeeper.Base.{
  ℕ, ◌≡◌, refl, ap, sym, subst, fun_ext, ◌∙◌, Bool, Bool-cases, Option-cases, inl, inr, false, not,
  Option, none, some, List, [], ◌∷◌, ◌==◌, bytes_eq,
}
use gophkeeper.Base.Go.{Error, new, wrap, err, errors_as_pg}
use gophkeeper.Model.{Bytes, UserId}
use gophkeeper.Database.{Uuid, Database, Server, UserRow, any, sleep}
use gophkeeper.Sqlc
use gophkeeper.Sqlc.{SaveParams, has_user, upsert_token}
use gophkeeper.Retry.{is_retryable_error}
use gophkeeper.Retry.Bounds.{with_retry_ok, with_retry_err}
use gophkeeper.Repo.Tokens.Unique.{AreUnique, upsert_token-AreUnique, filter-AreUnique}
use gophkeeper.Repo.{msg_wrong_user_id}
use gophkeeper.Repo.Tokens.Life.{live, counted, saved, deleted}
use gophkeeper.Repo.Tokens.{save, save_logic, validate, validate_logic}
use gophkeeper.Repo.Tokens.Map.{
  Call, save_token, validate_token, drop_token, later, Store, on_map, on_map_all, answered,
  on_database, on_database_all, store_of, as_store, lookup-upsert_token, lookup-filter, live-lookup,
}

module _ (srv : Server) (known : Uuid → Bool) (answers : (k : ℕ) → srv.fault k ≡ none)
    (plain : errors_as_pg srv.parse_error ≡ none) where
  -- A call in the database answers as on the map, and the tables follow the map.
  abbrev Follows : Bool × Database → Bool × Store → Database → Type 0
  Follows r a d =
      (r.0 ≡ a.0) × (as_store r.1 ≡ a.1) × AreUnique r.1.refresh_tokens × (r.1.users ≡ d.users)

  wrong_user : Error
  wrong_user = wrap msg_wrong_user_id (wrap "uuid.Parse()" srv.parse_error)

  refused_save :
      (h : Bytes) (user : UserId) (exp : ℕ) (d : Database)
      → srv.parse_uuid user ≡ none
      → (e : Error) × (save srv h user exp d ≡ (err e, d))
  unfolding save is_retryable_error wrong_user
  refused_save h user exp d p =
      let (m, q) =
        with_retry_err sleep (save_logic srv h user exp) 0 d d wrong_user (rw p refl)
          (rw plain refl) in
      (_, q)

  unknown_save :
      (h : Bytes) (user : UserId) (u : Uuid) (exp : ℕ) (d : Database)
      → srv.parse_uuid user ≡ some u
      → has_user u d ≡ false
      → (e : Error) × (save srv h user exp d ≡ (err e, counted srv answers d))
  unfolding save Sqlc.save is_retryable_error
  unknown_save h user u exp d p stranger =
      let (m, q) =
        with_retry_err sleep (save_logic srv h user exp) 0 d (counted srv answers d)
          (wrap "queries.Save failed" Sqlc.foreign_key_violation)
          (rw (p, answers d.rounds) (rw stranger refl)) refl in
      (_, q)

  refused_validate :
      (h : Bytes) (user : UserId) (d : Database)
      → srv.parse_uuid user ≡ none
      → (e : Error) × (validate srv h user d ≡ (err e, d))
  unfolding validate is_retryable_error wrong_user
  refused_validate h user d p =
      let (m, q) =
        with_retry_err sleep (validate_logic srv h user) 0 d d wrong_user (rw p refl)
          (rw plain refl) in
      (_, q)

  asked :
      (h : Bytes) (user : UserId) (u : Uuid) (d : Database)
      → srv.parse_uuid user ≡ some u
      → answered (validate srv h user d)
        ≡ (live srv h u d.now d.refresh_tokens, counted srv answers d)
  unfolding validate Sqlc.validate is_retryable_error
  asked h user u d p = elim (Bool-cases (live srv h u d.now d.refresh_tokens)) [
    | inl l ↦
        rw
          (with_retry_ok sleep (validate_logic srv h user) 0 d (counted srv answers d) tt
            (rw (p, answers d.rounds) (rw l refl)))
          (rw l refl)
    | inr l ↦
        let (m, q) =
          with_retry_err sleep (validate_logic srv h user) 0 d (counted srv answers d)
            (new "invalid token") (rw (p, answers d.rounds) (rw l refl)) refl in
        rw q (rw l refl)
  ]

  -- two maps with the same entries
  same_store :
      (e f : Bytes → Option (Uuid × ℕ)) (now : ℕ)
      → ((h : Bytes) → e h ≡ f h)
      → store_of e now ≡ store_of f now
  same_store e f now h = ap (λ (g : Bytes → Option (Uuid × ℕ)). store_of g now) (fun_ext h)

  save-Follows :
      (h : Bytes) (user : UserId) (exp : ℕ) (d : Database)
      → ((u : Uuid) → has_user u d ≡ known u)
      → AreUnique d.refresh_tokens
      → Follows
          (on_database srv (save_token h user exp) d)
          (on_map srv.parse_uuid known (save_token h user exp) (as_store d))
          d
  save-Follows h user exp d accounts q = elim (Option-cases (srv.parse_uuid user)) [
    | inl bad ↦ rw ((refused_save h user exp d bad).1, bad) (refl, refl, q, refl)
    | inr (u, p) ↦ elim (Bool-cases (has_user u d)) [
      | inl account ↦
          let row : SaveParams = record { user_id = u; token_hash = h; expires_at = exp } in
          rw (saved srv answers h user u exp d p account) (
            rw (p, sym (accounts u) ∙ account)
              (
                refl,
                same_store _ _ d.now (lookup-upsert_token row d.refresh_tokens),
                upsert_token-AreUnique row d.refresh_tokens q,
                refl,
              ))
      | inr stranger ↦
          rw (unknown_save h user u exp d p stranger).1
            (rw (p, sym (accounts u) ∙ stranger) (refl, refl, q, refl))
    ]
  ]

  validate-Follows :
      (h : Bytes) (user : UserId) (d : Database)
      → AreUnique d.refresh_tokens
      → Follows
          (on_database srv (validate_token h user) d)
          (on_map srv.parse_uuid known (validate_token h user) (as_store d))
          d
  validate-Follows h user d q = elim (Option-cases (srv.parse_uuid user)) [
    | inl bad ↦ rw ((refused_validate h user d bad).1, bad) (refl, refl, q, refl)
    | inr (u, p) ↦
        subst (λ r. Follows r (on_map srv.parse_uuid known (validate_token h user) (as_store d)) d)
          (sym (asked h user u d p))
          (rw p (live-lookup srv h u d.now d.refresh_tokens q, refl, q, refl))
  ]

  delete-Follows :
      (h : Bytes) (d : Database)
      → AreUnique d.refresh_tokens
      → Follows
          (on_database srv (drop_token h) d)
          (on_map srv.parse_uuid known (drop_token h) (as_store d))
          d
  delete-Follows h d q = rw (deleted srv answers h d) (
    refl,
    same_store _ _ d.now (lookup-filter h d.refresh_tokens),
    filter-AreUnique (λ t. not (bytes_eq t.token_hash h)) d.refresh_tokens q,
    refl,
  )

  call-Follows :
      (c : Call) (d : Database)
      → ((u : Uuid) → has_user u d ≡ known u)
      → AreUnique d.refresh_tokens
      → Follows (on_database srv c d) (on_map srv.parse_uuid known c (as_store d)) d
  call-Follows (save_token h user exp) d accounts q = save-Follows h user exp d accounts q
  call-Follows (validate_token h user) d accounts q = validate-Follows h user d q
  call-Follows (drop_token h) d accounts q = delete-Follows h d q
  call-Follows (later n) d accounts q = (refl, refl, q, refl)

  -- Where the server answers, parse errors carry no SQLSTATE, the accounts are the known users and
  -- the table's hashes are unique: any calls of the repository, with time going by between them,
  -- succeed and fail as they do on a map from hashes to users and times of expiry.
  pub on_database_all-on_map_all :
      (cs : List Call) (d : Database)
      → ((u : Uuid) → has_user u d ≡ known u)
      → AreUnique d.refresh_tokens
      → on_database_all srv cs d ≡ on_map_all srv.parse_uuid known cs (as_store d)
  unfolding on_database_all on_map_all
  on_database_all-on_map_all [] d accounts q = refl
  on_database_all-on_map_all (c ∷ cs) d accounts q =
      let (same, next, unique, users) = call-Follows c d accounts q in
      let after = (on_database srv c d).1 in
      let rest =
        on_database_all-on_map_all cs after
          (λ u. ap (λ (l : List UserRow). any (λ x. x.id == u) l) users ∙ accounts u) unique in
      ap (λ (b : Bool). b ∷ on_database_all srv cs after) same
      ∙ ap (λ (l : List Bool). (on_map srv.parse_uuid known c (as_store d)).0 ∷ l)
          (rest ∙ ap (λ (s : Store). on_map_all srv.parse_uuid known cs s) next)
