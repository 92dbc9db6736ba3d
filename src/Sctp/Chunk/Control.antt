-- ===== src/Sctp/Chunk/Control.antt =====
-- client/src/webrtc/crates/sctp/chunk: chunk_cookie_echo.rs, chunk_cookie_ack.rs, chunk_shutdown.rs,
-- chunk_shutdown_ack.rs and chunk_shutdown_complete.rs. The three chunks without a value are the unit.
pub mod RoundTrip
use webrtc_unreliable_client.Prelude.{ℕ, ◌+◌, ◌%◌, ◌^◌, not, List, ◌++◌, length, ◌==◌}
use webrtc_unreliable_client.Wire.{Buf, Outcome, ok, err, ◌>>=◌, ◌>>◌, or_panic, fail_if}
use webrtc_unreliable_client.Sctp.Error.{
  Error, chunk_type_not_cookie_echo, chunk_type_not_cookie_ack, chunk_type_not_shutdown,
  chunk_type_not_shutdown_ack, chunk_type_not_shutdown_complete, invalid_chunk_size,
}
use webrtc_unreliable_client.Sctp.Chunk.Header
use webrtc_unreliable_client.Sctp.Chunk.Header.{ChunkHeader, chunk_header_size}

-- `CT_SHUTDOWN`, `CT_SHUTDOWN_ACK`, `CT_COOKIE_ECHO`, `CT_COOKIE_ACK`, `CT_SHUTDOWN_COMPLETE`
abbrev pub ct_shutdown : ℕ
ct_shutdown = 7

abbrev pub ct_shutdown_ack : ℕ
ct_shutdown_ack = 8

abbrev pub ct_cookie_echo : ℕ
ct_cookie_echo = 10

abbrev pub ct_cookie_ack : ℕ
ct_cookie_ack = 11

abbrev pub ct_shutdown_complete : ℕ
ct_shutdown_complete = 14

pub record ChunkCookieEcho : Type 0 where
  pub cookie : List ℕ

pub record ChunkShutdown : Type 0 where
  pub cumulative_tsn_ack : ℕ

-- `CUMULATIVE_TSN_ACK_LENGTH`
abbrev pub cumulative_tsn_ack_length : ℕ
cumulative_tsn_ack_length = 4

unfoldable pub cookie_echo_header : ChunkCookieEcho → ChunkHeader
cookie_echo_header c = record {
  typ = ct_cookie_echo;
  flags = 0;
  value_length = length c.cookie % 2 ^ 16;
}

abbrev pub cookie_ack_header : ChunkHeader
cookie_ack_header = record { typ = ct_cookie_ack; flags = 0; value_length = 0 }

abbrev pub shutdown_header : ChunkHeader
shutdown_header = record { typ = ct_shutdown; flags = 0; value_length = cumulative_tsn_ack_length }

abbrev pub shutdown_ack_header : ChunkHeader
shutdown_ack_header = record { typ = ct_shutdown_ack; flags = 0; value_length = 0 }

abbrev pub shutdown_complete_header : ChunkHeader
shutdown_complete_header = record { typ = ct_shutdown_complete; flags = 0; value_length = 0 }

module _ (w : Buf) where
  open w use {put_u32, get_u32, slice}

  unfoldable pub cookie_echo_unmarshal : List ℕ → Outcome Error ChunkCookieEcho
  cookie_echo_unmarshal raw = do
    h ← Header.unmarshal w raw
    fail_if (not (h.typ == ct_cookie_echo)) chunk_type_not_cookie_echo
    cookie ← or_panic (slice raw chunk_header_size (chunk_header_size + h.value_length))
    ok (record { cookie = cookie })

  unfoldable pub cookie_echo_marshal : ChunkCookieEcho → List ℕ
  cookie_echo_marshal c = Header.marshal w (cookie_echo_header c) ++ c.cookie

  unfoldable pub cookie_ack_unmarshal : List ℕ → Outcome Error (Unit {0})
  cookie_ack_unmarshal raw = do
    h ← Header.unmarshal w raw
    fail_if (not (h.typ == ct_cookie_ack)) chunk_type_not_cookie_ack
    ok tt

  unfoldable pub cookie_ack_marshal : List ℕ
  cookie_ack_marshal = Header.marshal w cookie_ack_header

  unfoldable pub shutdown_unmarshal : List ℕ → Outcome Error ChunkShutdown
  shutdown_unmarshal raw = do
    h ← Header.unmarshal w raw
    fail_if (not (h.typ == ct_shutdown)) chunk_type_not_shutdown
    fail_if (not (length raw == chunk_header_size + cumulative_tsn_ack_length)) invalid_chunk_size
    reader ← or_panic (slice raw chunk_header_size (chunk_header_size + h.value_length))
    (cumulative_tsn_ack, r) ← or_panic (get_u32 reader)
    ok (record { cumulative_tsn_ack = cumulative_tsn_ack })

  unfoldable pub shutdown_marshal : ChunkShutdown → List ℕ
  shutdown_marshal c = Header.marshal w shutdown_header ++ put_u32 c.cumulative_tsn_ack

  unfoldable pub shutdown_ack_unmarshal : List ℕ → Outcome Error (Unit {0})
  shutdown_ack_unmarshal raw = do
    h ← Header.unmarshal w raw
    fail_if (not (h.typ == ct_shutdown_ack)) chunk_type_not_shutdown_ack
    ok tt

  unfoldable pub shutdown_ack_marshal : List ℕ
  shutdown_ack_marshal = Header.marshal w shutdown_ack_header

  unfoldable pub shutdown_complete_unmarshal : List ℕ → Outcome Error (Unit {0})
  shutdown_complete_unmarshal raw = do
    h ← Header.unmarshal w raw
    fail_if (not (h.typ == ct_shutdown_complete)) chunk_type_not_shutdown_complete
    ok tt

  unfoldable pub shutdown_complete_marshal : List ℕ
  shutdown_complete_marshal = Header.marshal w shutdown_complete_header
