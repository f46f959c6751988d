-- ===== src/Discovery/Handled.antt =====
-- Each thing that the browsing thread handles keeps what it knows online.
use transfer_assistant.Prelude.{
  branch_keeps, ℕ, ◌≡◌, refl, Bool, not, ◌||◌, List, [], ◌∷◌, Option, some, Text, ◌=ₜ◌, any, leb,
  ◌==◌, Bool-cases, Option-cases, inl, inr, get, list_eq, nat_eq,
}
use transfer_assistant.Discovery.{
  Browser, Interface, BroadcastAnnouncement, IpAddr, v4, v6, is_loopback, Packet, ServiceInfo,
  ServiceEvent, service_resolved, service_removed, other_event,
}
use transfer_assistant.Protocol.Messages.{protocol_major}
use transfer_assistant.Discovery.Browsing.{
  expire_peer, expire_all, hear, receive, receive_all, remove_service, serve, resolve, handle_event,
  decode_broadcast_announcement, announce, refresh,
}
use transfer_assistant.Discovery.Known.{
  IsPresent, get-Named, heard_before, insert-Named, online_after_mark, online_after_upsert,
  other_heard, other_served, other_service, other_unheard, remove-Named, served_before,
}

module _ (name_of : Text → Text) where
  pub expire_peer-IsPresent :
      (b : Browser) (peer_id : Text)
      → IsPresent name_of b
      → IsPresent name_of (expire_peer b peer_id)
  unfolding expire_peer
  expire_peer-IsPresent b peer_id m =
      elim (Bool-cases (any (λ e. e.1 =ₜ peer_id) b.service_peers)) [
        | inl served ↦ rw served (record {
          heard_online = λ id h. m.heard_online id (other_heard peer_id id b.broadcast_peers h).1;
          served_online = m.served_online;
          named = m.named;
        })
        | inr unserved ↦ rw unserved (record {
          heard_online = λ id h.
              let (other, heard) = other_heard peer_id id b.broadcast_peers h in
              online_after_mark b.core peer_id id other (m.heard_online id heard);
          served_online = λ id h.
              online_after_mark b.core peer_id id
                (other_served peer_id id b.service_peers h unserved) (m.served_online id h);
          named = m.named;
        })
      ]

  pub expire_all-IsPresent :
      (b : Browser) (ids : List Text) → IsPresent name_of b → IsPresent name_of (expire_all b ids)
  unfolding expire_all
  expire_all-IsPresent b [] m = m
  expire_all-IsPresent b (id ∷ ids) m =
      expire_all-IsPresent (expire_peer b id) ids (expire_peer-IsPresent b id m)

  -- A service carries the name of its peer.
  abbrev pub IsNamed : ServiceEvent → Type 0
  IsNamed (service_resolved info) = (id : Text) → info.id ≡ some id → info.fullname ≡ name_of id
  IsNamed (service_removed fullname) = Unit
  IsNamed other_event = Unit

  module _ (local_id : Text) (socket_text : ℕ → ℕ → Text) where
    pub hear-IsPresent :
        (from_json : List ℕ → Option BroadcastAnnouncement) (response : List ℕ) (b : Browser)
        (now : ℕ) (peer : BroadcastAnnouncement) (source : IpAddr)
        → IsPresent name_of b
        → IsPresent name_of (hear local_id socket_text from_json response b now peer source)
    unfolding hear
    hear-IsPresent from_json response b now peer (v6 a) m = m
    hear-IsPresent from_json response b now peer (v4 a) m = elim (Bool-cases (is_loopback (v4 a))) [
      | inl loops ↦ rw loops m
      | inr comes ↦ rw comes (record {
        heard_online = λ id h.
            online_after_upsert b.core peer.id peer.name peer.kind (socket_text a peer.port) id
              (λ e. m.heard_online id (heard_before peer.id id now b.broadcast_peers h e));
        served_online = λ id h.
            online_after_upsert b.core peer.id peer.name peer.kind (socket_text a peer.port) id
              (λ e. m.served_online id h);
        named = m.named;
      })
    ]

    pub receive-IsPresent :
        (from_json : List ℕ → Option BroadcastAnnouncement) (response : List ℕ) (now : ℕ)
        (b : Browser) (packet : Packet)
        → IsPresent name_of b
        → IsPresent name_of (receive local_id socket_text from_json response now b packet)
    unfolding receive
    receive-IsPresent from_json response now b packet m =
        elim (Option-cases (decode_broadcast_announcement from_json packet.bytes)) [
          | inl other ↦ rw other m
          | inr (peer, decoded) ↦ rw decoded (
              branch_keeps (IsPresent name_of)
                ((BroadcastAnnouncement.id peer =ₜ local_id)
                  || (not (BroadcastAnnouncement.version peer == protocol_major)
                      || (BroadcastAnnouncement.port peer == 0)))
                b _ m (hear-IsPresent from_json response b now peer packet.source m))
        ]

    pub receive_all-IsPresent :
        (from_json : List ℕ → Option BroadcastAnnouncement) (response : List ℕ) (now : ℕ)
        (b : Browser) (packets : List Packet)
        → IsPresent name_of b
        → IsPresent name_of (receive_all local_id socket_text from_json response now b packets)
    unfolding receive_all
    receive_all-IsPresent from_json response now b [] m = m
    receive_all-IsPresent from_json response now b (packet ∷ rest) m =
        receive_all-IsPresent from_json response now
          (receive local_id socket_text from_json response now b packet) rest
          (receive-IsPresent from_json response now b packet m)

    pub remove_service-IsPresent :
        (b : Browser) (fullname : Text)
        → IsPresent name_of b
        → IsPresent name_of (remove_service local_id socket_text b fullname)
    unfolding remove_service
    remove_service-IsPresent b fullname m = elim (Option-cases (get fullname b.service_peers)) [
      | inl unknown ↦ rw unknown m
      | inr (peer_id, known) ↦
          let e = get-Named name_of fullname peer_id b.service_peers m.named known in
          elim (Option-cases (get peer_id b.broadcast_peers)) [
            | inl unheard ↦
                rw (known, unheard)
                  (record {
                    heard_online = λ id h.
                        online_after_mark b.core peer_id id
                          (other_unheard peer_id id b.broadcast_peers unheard h)
                          (m.heard_online id h);
                    served_online = λ id h.
                        let (apart, served) =
                          other_service name_of fullname peer_id id b.service_peers m.named e h in
                        online_after_mark b.core peer_id id apart (m.served_online id served);
                    named = remove-Named name_of fullname b.service_peers m.named;
                  })
            | inr (t, heard) ↦
                rw (known, heard)
                  (record {
                    heard_online = m.heard_online;
                    served_online = λ id h.
                        m.served_online id
                          (other_service name_of fullname peer_id id b.service_peers m.named e h).1;
                    named = remove-Named name_of fullname b.service_peers m.named;
                  })
          ]
    ]

    pub serve-IsPresent :
        (b : Browser) (info : ServiceInfo) (peer_id : Text) (addresses : List ℕ)
        → info.fullname ≡ name_of peer_id
        → IsPresent name_of b
        → IsPresent name_of (serve local_id socket_text b info peer_id addresses)
    unfolding serve
    serve-IsPresent b info peer_id [] e m = m
    serve-IsPresent b info peer_id (first ∷ rest) e m = record {
      heard_online =
          λ id h. online_after_upsert b.core peer_id _ _ _ id (λ apart. m.heard_online id h);
      served_online = λ id h. online_after_upsert b.core peer_id _ _ _ id (λ apart.
          m.served_online id (served_before info.fullname peer_id id b.service_peers h apart));
      named = insert-Named name_of info.fullname peer_id b.service_peers e m.named;
    }

    pub handle_event-IsPresent :
        (b : Browser) (event : ServiceEvent)
        → IsNamed event
        → IsPresent name_of b
        → IsPresent name_of (handle_event local_id socket_text b event)
    unfolding handle_event resolve serve
    handle_event-IsPresent b (service_resolved info) ours m = elim (Option-cases info.id) [
      | inl unknown ↦ rw unknown m
      | inr (peer_id, known) ↦ rw known (
          branch_keeps (IsPresent name_of) (peer_id =ₜ local_id) b
            (serve local_id socket_text b info peer_id info.addresses) m
            (serve-IsPresent b info peer_id info.addresses (ours peer_id known) m))
    ]
    handle_event-IsPresent b (service_removed fullname) ours m =
        remove_service-IsPresent b fullname m
    handle_event-IsPresent b other_event ours m = m

  -- The times, the requests and what was sent do not matter.
  pub same-IsPresent :
      (b c : Browser)
      → c.core ≡ b.core
      → c.service_peers ≡ b.service_peers
      → c.broadcast_peers ≡ b.broadcast_peers
      → IsPresent name_of b
      → IsPresent name_of c
  same-IsPresent b c core services broadcasts m = record {
    heard_online = λ id. rw (core, broadcasts) (m.heard_online id);
    served_online = λ id. rw (core, services) (m.served_online id);
    named = rw services m.named;
  }

  pub announce-IsPresent :
      (has_socket : Bool) (now : ℕ) (interfaces : List Interface) (packet : List ℕ) (b : Browser)
      → IsPresent name_of b
      → IsPresent name_of (announce has_socket now interfaces packet b)
  unfolding announce
  announce-IsPresent has_socket now interfaces packet b m =
      branch_keeps (IsPresent name_of) (leb b.next_broadcast now) _ b
        (same-IsPresent b _ refl refl refl m) m

  pub refresh-IsPresent :
      (now : ℕ) (browse_ok : Bool) (b : Browser)
      → IsPresent name_of b
      → IsPresent name_of (refresh now browse_ok b)
  unfolding refresh
  refresh-IsPresent now browse_ok b m =
      branch_keeps (IsPresent name_of) (b.refresh_requested || leb b.next_refresh now) _ b
        (same-IsPresent b _ refl refl refl m) m
