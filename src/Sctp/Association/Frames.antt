-- ===== src/Sctp/Association/Frames.antt =====
-- What the routines of association_internal.rs leave alone.
use webrtc_unreliable_client.Prelude.{
  ℕ, ◌≡◌, refl, ap, ◌∙◌, List, [], ◌∷◌, ◌++◌, Option, none, some, Bool-cases, inl, inr,
}
use webrtc_unreliable_client.Prelude.Map.{Map, lookup, remove}
use webrtc_unreliable_client.Sctp.Sna.{sna32lte}
use webrtc_unreliable_client.Sctp.Stream.{Stream, mark_closed}
use webrtc_unreliable_client.Sctp.Packet.{Packet, ParamOutgoingResetRequest}
use webrtc_unreliable_client.Sctp.Association.{Association}
use webrtc_unreliable_client.Sctp.Association.Shutdown.{unregister_stream, unregister_all}
use webrtc_unreliable_client.Sctp.Association.Streams.{reset_streams_if_any}
use webrtc_unreliable_client.Sctp.Association.Receive.{retry_resets}

-- The association with other streams and other requests to reset them.
abbrev pub restreamed :
    Association → Map Stream → List Stream → Map ParamOutgoingResetRequest → Association
restreamed a streams unregistered requests = record a {
  streams = streams;
  unregistered = unregistered;
  reconfig_requests = requests;
}

-- Nothing but streams and requests differs.
pub record IsRestreamed (a b : Association) : Type 0 where
  pub new_streams : Map Stream
  pub new_unregistered : List Stream
  pub new_requests : Map ParamOutgoingResetRequest
  pub same : b ≡ restreamed a new_streams new_unregistered new_requests

IsRestreamed-refl : (a : Association) → IsRestreamed a a
IsRestreamed-refl a = record {
  new_streams = a.streams;
  new_unregistered = a.unregistered;
  new_requests = a.reconfig_requests;
  same = refl;
}

IsRestreamed-trans : {a b c : Association} → IsRestreamed a b → IsRestreamed b c → IsRestreamed a c
IsRestreamed-trans f g = record {
  new_streams = g.new_streams;
  new_unregistered = g.new_unregistered;
  new_requests = g.new_requests;
  same = g.same ∙ ap (λ x. restreamed x g.new_streams g.new_unregistered g.new_requests) f.same;
}

unregister_stream-IsRestreamed :
    (a : Association) (si : ℕ) → IsRestreamed a (unregister_stream a si)
unfolding unregister_stream
unregister_stream-IsRestreamed a si = removed (lookup si a.streams)
  where
    removed :
        (o : Option Stream)
        → IsRestreamed a (elim o [
          | none ↦ a
          | some s ↦ record a {
            streams = remove si a.streams;
            unregistered = a.unregistered ++ (mark_closed s ∷ []);
          }
        ])
    removed none = IsRestreamed-refl a
    removed (some s) = record {
      new_streams = remove si a.streams;
      new_unregistered = a.unregistered ++ (mark_closed s ∷ []);
      new_requests = a.reconfig_requests;
      same = refl;
    }

pub unregister_all-IsRestreamed :
    (sis : List ℕ) (a : Association) → IsRestreamed a (unregister_all a sis)
unfolding unregister_all
unregister_all-IsRestreamed [] a = IsRestreamed-refl a
unregister_all-IsRestreamed (si ∷ sis) a =
    IsRestreamed-trans (unregister_stream-IsRestreamed a si)
      (unregister_all-IsRestreamed sis (unregister_stream a si))

pub reset_streams_if_any-IsRestreamed :
    (a : Association) (p : ParamOutgoingResetRequest) → IsRestreamed a (reset_streams_if_any a p).0
unfolding reset_streams_if_any
reset_streams_if_any-IsRestreamed a p =
    elim (Bool-cases (sna32lte p.sender_last_tsn a.peer_last_tsn)) [
      | inl e ↦
          let f = unregister_all-IsRestreamed p.stream_identifiers a in
          rw e (record {
            new_streams = f.new_streams;
            new_unregistered = f.new_unregistered;
            new_requests = remove p.reconfig_request_sequence_number f.new_requests;
            same =
                ap
                  (λ (b : Association). record b {
                    reconfig_requests =
                        remove p.reconfig_request_sequence_number b.reconfig_requests;
                  })
                  f.same;
          })
      | inr e ↦ rw e (IsRestreamed-refl a)
    ]

pub retry_resets-IsRestreamed :
    (ps : List ParamOutgoingResetRequest) (a : Association) (reply : List Packet)
    → IsRestreamed a (retry_resets a reply ps).0
unfolding retry_resets
retry_resets-IsRestreamed [] a reply = IsRestreamed-refl a
retry_resets-IsRestreamed (p ∷ ps) a reply =
    let (b, resp) = reset_streams_if_any a p in
    IsRestreamed-trans (reset_streams_if_any-IsRestreamed a p)
      (retry_resets-IsRestreamed ps b (reply ++ (resp ∷ [])))
