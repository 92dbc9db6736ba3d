-- ===== src/Lib.antt =====
-- Verification of webrtc-unreliable-client, a WebRTC client for unreliable data channels. A data
-- channel is a stream of an SCTP association, which runs over DTLS and ICE, and is set up by an
-- offer/answer exchange. This library models the SCTP association with its queues, streams and timers,
-- the wire formats at its core, and the offer/answer exchange of the peer connection.
--
-- The parts and where they are modelled (paths below client/src/webrtc):
--   * crates/sctp/util.rs: Sctp.Sna (serial number comparisons, padding); laws in Sctp.Sna.Order.
--   * crates/sctp/chunk/chunk_header.rs: Sctp.Chunk.Header. Sctp.Chunk.Framed says what a reader of a
--     chunk finds behind the header.
--   * crates/sctp/chunk/chunk_payload_data.rs: Sctp.Chunk.PayloadData (the DATA chunk as a value) and
--     PayloadData.Codec (its bytes).
--   * crates/sctp/chunk/chunk_selective_ack.rs: Sctp.Chunk.GapAck and Sctp.Chunk.SelectiveAck.
--   * crates/sctp/chunk/chunk_forward_tsn.rs: Sctp.Chunk.ForwardTsn.
--   * chunk_cookie_echo.rs, chunk_cookie_ack.rs, chunk_shutdown.rs, chunk_shutdown_ack.rs and
--     chunk_shutdown_complete.rs of the same directory: Sctp.Chunk.Control.
--   * crates/sctp/queue/payload_queue.rs: Sctp.Queue.Payload. The association keeps the chunks that it
--     has received and those that are in flight in such queues.
--   * crates/sctp/queue/pending_queue.rs: Sctp.Queue.Pending, from which messages go in flight.
--   * crates/sctp/queue/reassembly_queue.rs: Sctp.Queue.ChunkSet (the fragments of one message) and
--     Sctp.Queue.Reassembly (the queue of a stream).
--   * crates/sctp/association/association_internal.rs: Sctp.Association (the state) and, below it, one
--     module for each group of methods: Handshake (INIT and INIT ACK), Cookies (COOKIE ECHO and COOKIE
--     ACK), Receive (DATA and FORWARD TSN), Streams (the table of streams, RECONFIG), Sack and
--     Congestion (SACK, the windows, fast recovery), Shutdown, Timeouts (what the timers call), Send
--     (from the pending queue in flight, and into packets), Resend (retransmission), and Dispatch
--     (`handle_inbound` and `gather_outbound`, which call all of these).
--   * association/mod.rs: the state as a number in Sctp.Shared, what `Association::new` does for a
--     client in Association.Handshake (`connect`).
--   * crates/sctp/stream/mod.rs: Sctp.Stream (receiving) and Sctp.Stream.Send (writing and closing).
--   * crates/sctp/timer: Sctp.Timer. packet.rs, chunk_init.rs, chunk_reconfig.rs and param/ as far as
--     the association reads them: Sctp.Packet.
--   * peer_connection/signaling_state.rs and sdp/sdp_type.rs: Peer.Signaling.
--   * peer_connection/mod.rs, set_description: Peer.Description.
-- A function of the source keeps its name. State that is changed in place is a record that an
-- operation takes and returns; the `unmarshal` and `marshal_to` of a chunk are `unmarshal` and
-- `marshal`. A module below a component holds the proofs about it; Examples holds runs of the code.
--
-- How the code is read:
--   * Machine integers are natural numbers, and arithmetic wraps as in a release build: Prelude.Words.
--     `usize` has 64 bits.
--   * A `HashMap` is an association list (Prelude.Map); where the code walks over one, the list's order
--     is one of the orders that the walk can take. `sort_by` of the
--     standard library is a stable insertion sort (Prelude.Sort).
--   * An `Arc<AtomicBool>` that fragments share is an address into a store of flags.
--   * The clock is a number that the caller passes.
--   * The `bytes` crate is not part of the repository: its calls are the parameter `Buf` of Wire, with
--     their documented behaviour as laws. Wire.big_endian is a concrete instance.
--   * A panic is a value: `panic` of Wire.Outcome, or `none` where an assertion fails.
--   * A method that holds a lock from beginning to end is one step.
--     The pushes of a write hold none from one to the next: `write_sctp` takes what other tasks push
--     in between as the argument `among`.
--   * What an association and its streams hold in an `Arc` (the state, the greatest message, the
--     pending queue, the flags of the fragments) is the record Shared, which both sides take.
--   * The channels that close or wake a task are what they last hold: `awakened`, `close_loop_ch`,
--     `handshake_completed`. A timer's task is a value, and its expiry is a step: Sctp.Timer.
--   * `rto_mgr` of an association is the list of the round trip times that it has measured; what the
--     manager makes of them is Sctp.Timer, over a parameter Float for the arithmetic of `f64`.
--   * The random numbers of a new association and of its cookie are arguments.
--   * `gather_outbound` returns the packets before they are written as bytes, and `handle_inbound` takes
--     a packet that is read already.
--   * Loops are structural recursion on the data that they walk, or run on fuel: over the streams of a
--     FORWARD-TSN chunk, as much as the packet has bytes, of which a round takes four; over the pending
--     chunks, as many as are pending; over the TSNs to a new cumulative one, their serial distance;
--     over the chunks behind the cumulative TSN, as many as the queue holds; over the chunks in flight,
--     one round more than there are, since each round but the last finds another one there; over
--     the fragments of a message, its bytes.
--
-- Not modelled: the bytes of the chunks and parameters that are not named above and of the packet
-- around them; DTLS, ICE, STUN and SDP, which these parts are to be joined with; the reading and the
-- writing task of an association, the tokio adapter of a stream, logging, sockets and task scheduling,
-- which are input and output; the CRC32c checksum, which a crate computes.
pub mod Prelude
pub mod Wire
pub mod Sctp
pub mod Peer
pub mod Examples
