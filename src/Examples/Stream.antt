-- ===== src/Examples/Stream.antt =====
-- stream/mod.rs at concrete inputs.
use webrtc_unreliable_client.Prelude.{
  true, ◌++◌, ℕ, ◌≡◌, refl, false, List, [], ◌∷◌, arith, not, ◌==◌, All,
}
use webrtc_unreliable_client.Wire.{ok, err}
use webrtc_unreliable_client.Sctp.Error.{payload_data_state_not_exist}
use webrtc_unreliable_client.Sctp.Chunk.PayloadData.{binary, dcep, ppi_as_u32, ChunkPayloadData}
use webrtc_unreliable_client.Sctp.Queue.Pending
use webrtc_unreliable_client.Sctp.Queue.Pending.Framing.{AreMessages, ends_inside}
use webrtc_unreliable_client.Sctp.Shared.{
  Shared, AssociationState, established, cookie_wait, state_eq,
}
use webrtc_unreliable_client.Sctp.Stream.{Stream, new}
use webrtc_unreliable_client.Sctp.Stream.Send.{
  packetize, count_message, write_sctp, is_shutting_down,
}
use webrtc_unreliable_client.Sctp.Stream.Packets.{joined, IsFragment, IsWhole, packetize-joined}
use webrtc_unreliable_client.Sctp.Stream.Writes.{
  queue_of, IsRow, is_unordered, lacks_fragments, write_sctp-IsFramed, write_sctp_early,
}
use webrtc_unreliable_client.Examples.Data.{fragment}

-- A stream with a payload of 2 bytes to a chunk.
abbrev narrow : Stream
narrow = new 3 2

abbrev shared_in : AssociationState → Shared
shared_in s = record {
  state = s;
  max_message_size = 9;
  awakened = false;
  pending_queue = Pending.new;
  flags = λ _. false;
  next_flag = 0;
}

abbrev message : List ℕ
message = 1 ∷ 2 ∷ 3 ∷ 4 ∷ 5 ∷ []

packetize-joined_example :
    let (s', h', chunks) = packetize narrow (shared_in established) 40 message binary in
    (joined chunks ≡ message)
    × All (IsFragment narrow binary) chunks
    × IsWhole (not (ppi_as_u32 binary == ppi_as_u32 dcep)) true chunks
    × AreMessages (not (ppi_as_u32 binary == ppi_as_u32 dcep)) false chunks
    × (ends_inside false chunks ≡ false)
unfolding new
packetize-joined_example =
    packetize-joined narrow (shared_in established) 40 message binary (omega arith)

-- Another task pushes an ordered chunk in front of the second fragment.
abbrev ordered_meanwhile : List (List ChunkPayloadData)
ordered_meanwhile = [] ∷ (fragment 0 0 false true true (9 ∷ []) ∷ []) ∷ []

write_sctp-IsFramed_example :
    let (s', h', result) =
      write_sctp narrow (shared_in established) 40 message binary ordered_meanwhile in
    (chunks : List ChunkPayloadData) × (joined chunks ≡ message)
    × All (IsFragment narrow binary) chunks
    × IsWhole (is_unordered binary) true chunks
    × (queue_of (is_unordered binary) h'.pending_queue
        ≡ queue_of (is_unordered binary) Pending.new ++ chunks)
    × (result ≡ ok 5)
    × IsRow (is_unordered binary) h'.pending_queue
    × (lacks_fragments (is_unordered binary) h'.pending_queue ≡ false)
unfolding new ppi_as_u32
write_sctp-IsFramed_example =
    write_sctp-IsFramed narrow (shared_in established) 40 message binary ordered_meanwhile
      (omega arith) refl (omega arith) (tt, ((refl, tt), tt)) tt refl

write_sctp_early_example :
    let (s', h', result) = write_sctp narrow (shared_in cookie_wait) 40 message dcep [] in
    (result ≡ err payload_data_state_not_exist)
    × (h'.pending_queue ≡ Pending.new)
    × (s'.buffered_amount ≡ 5)
    × (s' ≡ count_message dcep message narrow)
unfolding new state_eq is_shutting_down
write_sctp_early_example =
    write_sctp_early narrow (shared_in cookie_wait) 40 message dcep [] refl refl (omega arith)
