-- ===== src/Convert.antt =====
-- internal/adapters/grpc/metadata/converter.go, over the messages of
-- proto/v1/metadata/metadata.pb.go and their getters.
pub mod RoundTrip
mod Tests
use gophkeeper.Base.{ℕ, String, Bool, false, Option, none, some, ◌==◌, str_eq, if◌then◌else◌}
use gophkeeper.Base.Go.{Error, new, Outcome, ok, err, panic, ℤ, pos, negsuc}
use gophkeeper.Model.{
  Metadata, ChunkDescriptor, DataType, data_type_authentication_credentials, data_type_card,
  data_type_binary,
}

-- An open enum of 32 bits: a message may carry any number, a negative one too.
abbrev pub ProtoDataType : Type 0
ProtoDataType = ℤ

abbrev pub data_type_proto_unspecified : ProtoDataType
data_type_proto_unspecified = pos 0

abbrev pub data_type_proto_auth : ProtoDataType
data_type_proto_auth = pos 1

abbrev pub data_type_proto_card : ProtoDataType
data_type_proto_card = pos 2

abbrev pub data_type_proto_binary : ProtoDataType
data_type_proto_binary = pos 3

-- Every field is optional. `Timestamp` is timestamppb's.
pub record ProtoChunkDescriptor : Type 0 where
  pub offset : Option ℕ
  pub last : Option Bool
  pub crc32c : Option ℕ

pub record ProtoMetadata (Timestamp : Type 0) : Type 0 where
  pub data_type : Option ProtoDataType
  pub id : Option String
  pub name : Option String
  pub description : Option String
  pub created_at : Option Timestamp
  pub chunk_descriptor : Option ProtoChunkDescriptor

-- what a getter returns of an absent field
abbrev pub get_or {ℓ} : {A : Type ℓ} → A → Option A → A
get_or d none = d
get_or d (some a) = a

abbrev get_offset : ProtoChunkDescriptor → ℕ
get_offset x = get_or 0 x.offset

abbrev get_last : ProtoChunkDescriptor → Bool
get_last x = get_or false x.last

abbrev get_crc32c : ProtoChunkDescriptor → ℕ
get_crc32c x = get_or 0 x.crc32c

-- The getters of a message take a nil receiver, which has no field.
module _ {Timestamp : Type 0} where
  abbrev pub get_data_type : Option (ProtoMetadata Timestamp) → ProtoDataType
  get_data_type none = data_type_proto_unspecified
  get_data_type (some x) = get_or data_type_proto_unspecified x.data_type

  abbrev pub get_id : Option (ProtoMetadata Timestamp) → String
  get_id none = ""
  get_id (some x) = get_or "" x.id

  abbrev pub get_name : Option (ProtoMetadata Timestamp) → String
  get_name none = ""
  get_name (some x) = get_or "" x.name

  abbrev pub get_description : Option (ProtoMetadata Timestamp) → String
  get_description none = ""
  get_description (some x) = get_or "" x.description

  abbrev get_created_at : Option (ProtoMetadata Timestamp) → Option Timestamp
  get_created_at none = none
  get_created_at (some x) = x.created_at

  abbrev get_chunk_descriptor : Option (ProtoMetadata Timestamp) → Option ProtoChunkDescriptor
  get_chunk_descriptor none = none
  get_chunk_descriptor (some x) = x.chunk_descriptor

-- timestamppb, with a time as nanoseconds from Go's zero time: `AsTime` and `New`.
pub record Timestamps : Type 1 where
  pub Timestamp : Type 0
  pub as_time : Timestamp → ℕ
  pub new_timestamp : ℕ → Timestamp

abbrev from_proto_chunk : Option ProtoChunkDescriptor → Option ChunkDescriptor
from_proto_chunk none = none
from_proto_chunk (some cm) =
    some (record { offset = get_offset cm; crc32c = get_crc32c cm; last = get_last cm })

abbrev to_proto_chunk : Option ChunkDescriptor → Option ProtoChunkDescriptor
to_proto_chunk none = none
to_proto_chunk (some x) =
    some (record { offset = some x.offset; last = some x.last; crc32c = some x.crc32c })

abbrev pub same_type : ProtoDataType → ProtoDataType → Bool
same_type (pos m) (pos n) = m == n
same_type (negsuc m) (negsuc n) = m == n
same_type _ _ = false

-- the two switches
abbrev from_proto_data_type : ProtoDataType → Outcome DataType
from_proto_data_type dt =
    if same_type dt data_type_proto_auth
    then ok data_type_authentication_credentials
    else if same_type dt data_type_proto_card
    then ok data_type_card
    else if same_type dt data_type_proto_binary
    then ok data_type_binary
    else err (new "unknown metadata type")

abbrev to_proto_data_type : DataType → ProtoDataType
to_proto_data_type dt =
    if str_eq dt data_type_authentication_credentials
    then data_type_proto_auth
    else if str_eq dt data_type_card
    then data_type_proto_card
    else if str_eq dt data_type_binary
    then data_type_proto_binary
    else data_type_proto_unspecified

module _ (ts : Timestamps) where
  abbrev from_timestamp : Option ts.Timestamp → ℕ
  from_timestamp none = 0
  from_timestamp (some t) = ts.as_time t

  abbrev converted : ProtoMetadata ts.Timestamp → Outcome DataType → Outcome Metadata
  converted m (ok dt) = ok (record {
    created_at = from_timestamp m.created_at;
    chunk_descriptor = from_proto_chunk m.chunk_descriptor;
    description = get_description (some m);
    name = get_name (some m);
    user_id = "";
    data_type = dt;
    id = get_id (some m);
  })
  converted m (err e) = err e
  converted m (panic p) = panic p

  unfoldable pub from_proto_metadata : Option (ProtoMetadata ts.Timestamp) → Outcome Metadata
  from_proto_metadata none = err (new "nil proto metadata")
  from_proto_metadata (some m) = converted m (from_proto_data_type (get_data_type (some m)))

  unfoldable pub to_proto_metadata : Option Metadata → Option (ProtoMetadata ts.Timestamp)
  to_proto_metadata none = none
  to_proto_metadata (some m) = some (record {
    data_type = some (to_proto_data_type m.data_type);
    id = some m.id;
    name = some m.name;
    description = some m.description;
    created_at = some (ts.new_timestamp m.created_at);
    chunk_descriptor = to_proto_chunk m.chunk_descriptor;
  })
