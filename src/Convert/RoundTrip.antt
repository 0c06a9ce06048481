-- ===== src/Convert/RoundTrip.antt =====
-- What passes both ways through internal/adapters/grpc/metadata/converter.go.
use gophkeeper.Base.{◌≡◌, refl, ◌⊎◌, inl, inr, true, some, arith, eq_iff, ◌≤◌, Bool-cases, ◌==◌}
use gophkeeper.Base.Go.{new, ok, err, pos, negsuc}
use gophkeeper.Model.{Metadata, DataType}
use gophkeeper.Keeper.{supported}
use gophkeeper.Convert.{
  ProtoDataType, from_proto_data_type, ProtoMetadata, Timestamps, from_proto_metadata,
  to_proto_metadata, get_data_type, get_id,
}

-- the numbers of the three known types, and all other ones
abbrev pub Known : ProtoDataType → Type 0
Known (pos n) = (1 ≤ n) × (n ≤ 3)
Known (negsuc n) = ⊥

abbrev pub Unknown : ProtoDataType → Type 0
Unknown (pos n) = (n ≡ 0) ⊎ (4 ≤ n)
Unknown (negsuc n) = Unit

data_type_cases :
    (dt : ProtoDataType)
    → ((t : DataType) × (from_proto_data_type dt ≡ ok t) × Known dt × (supported t ≡ true))
      ⊎ ((from_proto_data_type dt ≡ err (new "unknown metadata type")) × Unknown dt)
data_type_cases (negsuc n) = inr (refl, tt)
data_type_cases (pos dt) = elim (Bool-cases (dt == 1)) [
  | inl auth ↦
      inl ("DataTypeAuthenticationCredentials", rw auth, (ground arith, ground arith), refl)
  | inr a ↦ elim (Bool-cases (dt == 2)) [
    | inl card ↦ inl ("DataTypeCard", rw (a, card), (ground arith, ground arith), refl)
    | inr c ↦ elim (Bool-cases (dt == 3)) [
      | inl binary ↦ inl (" DataTypeBinary", rw (a, c, binary), (ground arith, ground arith), refl)
      | inr b ↦ inr (rw (a, c, b), ground arith)
    ]
  ]
]

module _ (ts : Timestamps) where
  -- A metadata of one of the three stored types comes back from its message as it was, but for the
  -- owner, which messages do not carry: provided that `AsTime` undoes `New` at its time.
  pub from_proto-to_proto :
      (m : Metadata)
      → supported m.data_type ≡ true
      → ts.as_time (ts.new_timestamp m.created_at) ≡ m.created_at
      → from_proto_metadata ts (to_proto_metadata ts (some m)) ≡ ok (record m { user_id = "" })
  unfolding from_proto_metadata to_proto_metadata
  from_proto-to_proto m h t = ground (
    arith,
    eq_iff m.data_type "DataTypeAuthenticationCredentials",
    eq_iff m.data_type "DataTypeCard",
    eq_iff m.data_type " DataTypeBinary",
  )

  -- A message is accepted exactly when it carries one of the three known types, and what it is
  -- converted to has a type that the keeper stores, and no owner.
  pub from_proto_accepts :
      (p : ProtoMetadata ts.Timestamp)
      → ((m : Metadata) × (from_proto_metadata ts (some p) ≡ ok m)
          × Known (get_data_type (some p))
          × (supported m.data_type ≡ true)
          × (m.user_id ≡ "")
          × (m.id ≡ get_id (some p)))
        ⊎ ((from_proto_metadata ts (some p) ≡ err (new "unknown metadata type"))
            × Unknown (get_data_type (some p)))
  unfolding from_proto_metadata
  from_proto_accepts p = elim (data_type_cases (get_data_type (some p))) [
    | inl (t, e, range, known) ↦ rw e (inl (_, refl, range, known, refl, refl))
    | inr (e, out) ↦ rw e (inr (refl, out))
  ]
