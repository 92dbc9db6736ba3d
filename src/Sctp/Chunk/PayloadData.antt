-- ===== src/Sctp/Chunk/PayloadData.antt =====
-- client/src/webrtc/crates/sctp/chunk/chunk_payload_data.rs: the DATA chunk as a value.
pub mod Codec
pub mod RoundTrip
use webrtc_unreliable_client.Prelude.{ℕ, Bool, true, false, ◌&&◌, List, [], if◌then◌else◌, ◌==◌}

pub data PayloadProtocolIdentifier : Type 0 where
  dcep string binary string_empty binary_empty unknown : PayloadProtocolIdentifier

-- `From<u32>`
unfoldable pub ppi_from : ℕ → PayloadProtocolIdentifier
ppi_from v =
    if v == 50
    then dcep
    else if v == 51
    then string
    else if v == 53
    then binary
    else if v == 56
    then string_empty
    else if v == 57
    then binary_empty
    else unknown

-- `as u32`: the discriminants; `Unknown` follows 57.
unfoldable pub ppi_as_u32 : PayloadProtocolIdentifier → ℕ
ppi_as_u32 dcep = 50
ppi_as_u32 string = 51
ppi_as_u32 binary = 53
ppi_as_u32 string_empty = 56
ppi_as_u32 binary_empty = 57
ppi_as_u32 unknown = 58

-- An `Arc<AtomicBool>` is the address of a cell: the fragments of one message share theirs.
abbrev pub FlagRef : Type 0
FlagRef = ℕ

abbrev pub Flags : Type 0
Flags = FlagRef → Bool

abbrev pub store : Flags → FlagRef → Bool → Flags
store s r b = λ a. if a == r then b else s a

-- `since` is a reading of the system clock.
pub record ChunkPayloadData : Type 0 where
  pub unordered : Bool
  pub beginning_fragment : Bool
  pub ending_fragment : Bool
  pub immediate_sack : Bool
  pub tsn : ℕ
  pub stream_identifier : ℕ
  pub stream_sequence_number : ℕ
  pub payload_type : PayloadProtocolIdentifier
  pub user_data : List ℕ
  pub acked : Bool
  pub miss_indicator : ℕ
  pub since : ℕ
  pub nsent : ℕ
  pub abandoned : FlagRef
  pub all_inflight : FlagRef
  pub retransmit : Bool

-- `ChunkPayloadData::default`, given the clock and two fresh cells.
unfoldable pub default_chunk : ℕ → FlagRef → FlagRef → ChunkPayloadData
default_chunk now a b = record {
  unordered = false;
  beginning_fragment = false;
  ending_fragment = false;
  immediate_sack = false;
  tsn = 0;
  stream_identifier = 0;
  stream_sequence_number = 0;
  payload_type = unknown;
  user_data = [];
  acked = false;
  miss_indicator = 0;
  since = now;
  nsent = 0;
  abandoned = a;
  all_inflight = b;
  retransmit = false;
}

unfoldable pub is_abandoned : Flags → ChunkPayloadData → Bool
is_abandoned s c = s c.abandoned && s c.all_inflight

unfoldable pub set_abandoned : Flags → ChunkPayloadData → Bool → Flags
set_abandoned s c b = store s c.abandoned b

unfoldable pub set_all_inflight : Flags → ChunkPayloadData → Flags
set_all_inflight s c = if c.ending_fragment then store s c.all_inflight true else s
