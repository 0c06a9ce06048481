-- ===== src/Repo/Metadata/Trip.antt =====
-- What Get of internal/repo/db/metadata_repo.go returns of a metadata that was Put.
use gophkeeper.Base.{
  ℕ, ◌+◌, ◌≡◌, refl, subst, String, Bool-cases, inl, inr, true, false, Option, none, some, [], ◌∷◌,
  ◌++◌, str_eq, eq_iff, arith, ◌==◌,
}
use gophkeeper.Base.Go.{Error, wrap, ok, err, ◌>>=◌}
use gophkeeper.Model
use gophkeeper.Model.{DataId, ObjectLocator, MetaLoc, data_type_binary}
use gophkeeper.Database.{Uuid, Database, Server, Object, DataTypeRow, find, sleep}
use gophkeeper.Database.Tables.{find_last}
use gophkeeper.Sqlc
use gophkeeper.Sqlc.{has_user, has_object, type_named, type_of, metadata_row}
use gophkeeper.Retry.{is_retryable_error}
use gophkeeper.Retry.Bounds.{with_retry_ok, with_retry_err}
use gophkeeper.Repo.Metadata.{meta_loc, put, put_logic, get, get_logic}

named_by :
    (n : String) (r dt : DataTypeRow)
    → type_of r.id ≡ some r
    → str_eq r.name n ≡ true
    → Option.some r ≡ some dt
    → (type_of dt.id ≡ some dt) × (dt.name ≡ n)
named_by n r dt e t h =
    subst (λ (x : DataTypeRow). (type_of x.id ≡ some x) × (x.name ≡ n)) (some-inj h)
      (e, (eq_iff r.name n).0 t)
  where
    some-inj : Option.some r ≡ some dt → r ≡ dt
    some-inj q = cc

-- names and numbers of the data types say the same
type_of-type_named :
    (n : String) (dt : DataTypeRow)
    → type_named n ≡ some dt
    → (type_of dt.id ≡ some dt) × (dt.name ≡ n)
type_of-type_named n dt h = elim (Bool-cases (str_eq "DataTypeAuthenticationCredentials" n)) [
  | inl first ↦ named_by n _ dt refl first (rw first at h)
  | inr a ↦ elim (Bool-cases (str_eq "DataTypeCard" n)) [
    | inl second ↦ named_by n _ dt refl second (rw (a, second) at h)
    | inr b ↦ elim (Bool-cases (str_eq "DataTypeBinary" n)) [
      | inl third ↦ named_by n _ dt refl third (rw (a, b, third) at h)
      | inr c ↦ absurd (unnamed (rw (a, b, c) at h))
    ]
  ]
]
  where
    unnamed : none ≡ some dt → ⊥
    unnamed q = cc

module _ (srv : Server) (answers : (k : ℕ) → srv.fault k ≡ none) where
  -- the row of a new object; its description is NULL
  abbrev new_object : Model.Metadata → ObjectLocator → Uuid → DataTypeRow → Database → Object
  new_object m loc u dt d = record {
    id = srv.gen_random_uuid (d.rounds + 1);
    user_id = u;
    id_data_type = dt.id;
    name = m.name;
    description = none;
    storage_locator = loc;
    created_at = d.now;
  }

  put_ok :
      (m : Model.Metadata) (loc : ObjectLocator) (u : Uuid) (dt : DataTypeRow) (d : Database)
      → srv.parse_uuid m.user_id ≡ some u
      → has_user u d ≡ true
      → type_named m.data_type ≡ some dt
      → has_object (srv.gen_random_uuid (d.rounds + 1)) d ≡ false
      → put srv m loc d ≡ (
        ok (srv.uuid_string (srv.gen_random_uuid (d.rounds + 1))),
        record d { rounds = d.rounds + 1; objects = d.objects ++ new_object m loc u dt d ∷ [] },
      )
  unfolding put Sqlc.put_metadata
  put_ok m loc u dt d p known named free =
      with_retry_ok sleep (put_logic srv m loc) 0 d
        (record d { rounds = d.rounds + 1; objects = d.objects ++ new_object m loc u dt d ∷ [] })
        (srv.uuid_string (srv.gen_random_uuid (d.rounds + 1)))
        (rw p (rw (answers d.rounds, named) (rw (free, known) refl)))

  get_ok :
      (id : DataId) (u : Uuid) (o : Object) (dt : DataTypeRow) (d : Database)
      → srv.parse_uuid id ≡ some u
      → find (λ x. x.id == u) d.objects ≡ some o
      → type_of o.id_data_type ≡ some dt
      → get srv id d ≡ (ok (meta_loc srv (metadata_row o dt)), record d { rounds = d.rounds + 1 })
  unfolding get Sqlc.get_metadata
  get_ok id u o dt d p found typed =
      rw
        (with_retry_ok sleep (get_logic srv id) 0 d (record d { rounds = d.rounds + 1 })
          (metadata_row o dt) (rw p (rw (answers d.rounds, found) (rw typed refl))))
        refl

  -- Where the server answers: a metadata of a type that the table of types names, Put for a known
  -- user, is got back under the identifier that Put returned, with its locator, name and type and
  -- the time of the Put. Its owner, its description and its chunk descriptor are not. The UUID of
  -- the row must be new, and its text must parse to itself.
  pub get-put_row :
      (m : Model.Metadata) (loc : ObjectLocator) (u : Uuid) (dt : DataTypeRow) (d : Database)
      → srv.parse_uuid m.user_id ≡ some u
      → has_user u d ≡ true
      → type_named m.data_type ≡ some dt
      → has_object (srv.gen_random_uuid (d.rounds + 1)) d ≡ false
      → srv.parse_uuid (srv.uuid_string (srv.gen_random_uuid (d.rounds + 1)))
        ≡ some (srv.gen_random_uuid (d.rounds + 1))
      → ((put srv m loc >>= get srv) d).0
        ≡ ok (record {
          locator = loc;
          meta = record m {
            created_at = d.now;
            chunk_descriptor = none;
            description = "";
            user_id = "";
            id = srv.uuid_string (srv.gen_random_uuid (d.rounds + 1));
          };
        })
  get-put_row m loc u dt d p known named free own =
      let id = srv.gen_random_uuid (d.rounds + 1) in
      let o = new_object m loc u dt d in
      let (typed, called) = type_of-type_named m.data_type dt named in
      rw (put_ok m loc u dt d p known named free) (
        rw
          (get_ok (srv.uuid_string id) id o dt
            (record d { rounds = d.rounds + 1; objects = d.objects ++ o ∷ [] }) own
            (find_last (λ x. x.id == id) d.objects o free (ground arith)) typed)
          (rw called refl))

  -- Where the server answers, a Put of a metadata with the type `model.DataTypeBinary` fails and
  -- writes no row: the table of types has no such name.
  pub put_refuses_binary :
      (m : Model.Metadata) (loc : ObjectLocator) (u : Uuid) (d : Database)
      → srv.parse_uuid m.user_id ≡ some u
      → m.data_type ≡ data_type_binary
      → (e : Error) × (put srv m loc d ≡ (err e, record d { rounds = d.rounds + 1 }))
  unfolding put Sqlc.put_metadata is_retryable_error
  put_refuses_binary m loc u d p binary =
      let (msg, q) =
        with_retry_err sleep (put_logic srv m loc) 0 d (record d { rounds = d.rounds + 1 })
          (wrap "queries.PutMetadata failed" Sqlc.not_null_violation)
          (rw (p, binary) (rw (answers d.rounds) refl)) refl in
      (_, q)
