-- ===== src/Convert/Tests.antt =====
-- The converter theorems with timestamps that are their times.
use gophkeeper.Base.{ℕ, ◌≡◌, ◌⊎◌, refl, true, some, none}
use gophkeeper.Base.Go.{pos, new, ok, err}
use gophkeeper.Model.{Metadata, data_type_card}
use gophkeeper.Keeper.{supported}
use gophkeeper.Convert.{
  ProtoMetadata, Timestamps, from_proto_metadata, to_proto_metadata, get_data_type,
}
use gophkeeper.Convert.RoundTrip.{Known, Unknown, from_proto-to_proto, from_proto_accepts}

abbrev plain : Timestamps
plain = record { Timestamp = ℕ; as_time = λ t. t; new_timestamp = λ t. t }

abbrev card : Metadata
card = record {
  created_at = 9;
  chunk_descriptor = some (record { offset = 4; crc32c = 5; last = true });
  description = "mine";
  name = "visa";
  user_id = "alice";
  data_type = data_type_card;
  id = "1";
}

from_proto-to_proto_example :
    from_proto_metadata plain (to_proto_metadata plain (some card))
    ≡ ok (record card { user_id = "" })
from_proto-to_proto_example = from_proto-to_proto plain card refl refl

abbrev message : ProtoMetadata ℕ
message = record {
  data_type = some (pos 3);
  id = some "1";
  name = none;
  description = none;
  created_at = none;
  chunk_descriptor = none;
}

from_proto_accepts_example :
    ((m : Metadata) × (from_proto_metadata plain (some message) ≡ ok m)
      × Known (get_data_type (some message))
      × (supported m.data_type ≡ true)
      × (m.user_id ≡ "")
      × (m.id ≡ "1"))
    ⊎ ((from_proto_metadata plain (some message) ≡ err (new "unknown metadata type"))
        × Unknown (get_data_type (some message)))
from_proto_accepts_example = from_proto_accepts plain message
