-- ===== src/Peer.antt =====
-- client/src/webrtc/peer_connection: the offer/answer exchange of a peer connection.
pub mod Signaling
pub mod Description
