-- ===== src/Examples/Control.antt =====
-- The cookie and shutdown chunks at concrete inputs.
use webrtc_unreliable_client.Prelude.{[], ◌∷◌}
use webrtc_unreliable_client.Sctp.Chunk.Control.{ChunkCookieEcho, ChunkShutdown}

abbrev cookie : ChunkCookieEcho
cookie = record { cookie = 5 ∷ 6 ∷ [] }

abbrev shutdown : ChunkShutdown
shutdown = record { cumulative_tsn_ack = 4294967295 }
