-- ===== src/Sctp/Association/Cookies.antt =====
-- client/src/webrtc/crates/sctp/association/association_internal.rs: COOKIE ECHO, COOKIE ACK and
-- HEARTBEAT.
use webrtc_unreliable_client.Prelude.{
  ℕ, Bool, true, false, not, ◌&&◌, List, [], ◌∷◌, ◌++◌, Option, none, some, if◌then◌else◌, ◌==◌,
}
use webrtc_unreliable_client.Wire.{ok}
use webrtc_unreliable_client.Sctp.Shared.{
  AssociationState, closed, cookie_wait, cookie_echoed, established, state_eq,
}
use webrtc_unreliable_client.Sctp.Timer.{stop_rtx}
use webrtc_unreliable_client.Sctp.Chunk.Control.{ChunkCookieEcho}
use webrtc_unreliable_client.Sctp.Packet.{Packet, Param, heartbeat_info, cookie_ack, heartbeat_ack}
use webrtc_unreliable_client.Sctp.Association.{
  Association, Handled, get_state, set_state, create_packet,
}

-- `==` of two byte strings
unfoldable pub bytes_eq : List ℕ → List ℕ → Bool
bytes_eq [] [] = true
bytes_eq [] (b ∷ bs) = false
bytes_eq (a ∷ xs) [] = false
bytes_eq (a ∷ xs) (b ∷ bs) = a == b && bytes_eq xs bs

unfoldable pub handle_heartbeat : Association → List Param → Handled (List Packet)
unfolding create_packet
handle_heartbeat a (heartbeat_info bytes ∷ ps) =
    (a, ok (create_packet a (heartbeat_ack (heartbeat_info bytes ∷ []) ∷ []) ∷ []))
handle_heartbeat a ps = (a, ok [])

-- What the two cookie handlers do at the end of the handshake.
unfoldable pub complete_handshake : Association → Association
complete_handshake a =
    set_state (record a { handshake_completed = a.handshake_completed ++ (none ∷ []) }) established

unfoldable pub accept_cookie : Association → Association
unfolding complete_handshake
accept_cookie a = complete_handshake (record a {
  t1init = stop_rtx a.t1init;
  stored_init = none;
  t1cookie = stop_rtx a.t1cookie;
  stored_cookie_echo = none;
})

-- The states in which a COOKIE ECHO with our cookie is acknowledged; it ends the handshake in three.
unfoldable pub echo_in : AssociationState → Association → Handled (List Packet)
unfolding accept_cookie create_packet
echo_in established a = (a, ok (create_packet a (cookie_ack ∷ []) ∷ []))
echo_in closed a = (accept_cookie a, ok (create_packet a (cookie_ack ∷ []) ∷ []))
echo_in cookie_wait a = (accept_cookie a, ok (create_packet a (cookie_ack ∷ []) ∷ []))
echo_in cookie_echoed a = (accept_cookie a, ok (create_packet a (cookie_ack ∷ []) ∷ []))
echo_in s a = (a, ok [])

unfoldable pub holds_cookie : Option (List ℕ) → List ℕ → Bool
unfolding bytes_eq
holds_cookie none c = false
holds_cookie (some my_cookie) c = bytes_eq my_cookie c

unfoldable pub handle_cookie_echo : Association → ChunkCookieEcho → Handled (List Packet)
unfolding echo_in holds_cookie
handle_cookie_echo a c =
    if holds_cookie a.my_cookie c.cookie then echo_in (get_state a) a else (a, ok [])

unfoldable pub handle_cookie_ack : Association → Handled (List Packet)
unfolding state_eq complete_handshake
handle_cookie_ack a = if not (state_eq (get_state a) cookie_echoed) then (a, ok []) else (
  complete_handshake (record a { t1cookie = stop_rtx a.t1cookie; stored_cookie_echo = none }),
  ok [],
)
