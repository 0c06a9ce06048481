-- ===== src/Model.antt =====
-- internal/model: the domain types that the layers exchange.
use gophkeeper.Base.{ℕ, String, Option, List, Bool}

abbrev pub Bytes : Type 0
Bytes = List ℕ

abbrev pub UserId : Type 0
UserId = String

abbrev pub DataId : Type 0
DataId = String

abbrev pub ObjectLocator : Type 0
ObjectLocator = String

abbrev pub DataType : Type 0
DataType = String

-- The constants as they are spelled, the leading blank of the last one included.
abbrev pub data_type_unspecified : DataType
data_type_unspecified = "DataTypeUnspecified"

abbrev pub data_type_authentication_credentials : DataType
data_type_authentication_credentials = "DataTypeAuthenticationCredentials"

abbrev pub data_type_card : DataType
data_type_card = "DataTypeCard"

abbrev pub data_type_binary : DataType
data_type_binary = " DataTypeBinary"

pub record User : Type 0 where
  pub password_phc : String
  pub login_hash : Bytes

pub record ChunkDescriptor : Type 0 where
  pub offset : ℕ
  pub crc32c : ℕ
  pub last : Bool

-- `created_at` counts nanoseconds from Go's zero time, which is 0.
pub record Metadata : Type 0 where
  pub created_at : ℕ
  pub chunk_descriptor : Option ChunkDescriptor
  pub description : String
  pub name : String
  pub user_id : UserId
  pub data_type : DataType
  pub id : DataId

pub record MetaLoc : Type 0 where
  pub locator : ObjectLocator
  pub meta : Metadata
