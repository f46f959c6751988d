-- ===== src/Discovery/Presence.antt =====
-- A peer that the browsing thread knows of is online in the core.
use transfer_assistant.Prelude.{
  ℕ, ◌≡◌, Bool, List, [], ◌∷◌, Option, Text, All, if◌then◌else◌, get, list_eq, nat_eq,
}
use transfer_assistant.Discovery.{Browser, BroadcastAnnouncement}
use transfer_assistant.Discovery.Browsing.{
  expire_all, receive_all, announce, refresh, Turn, turn, turns, stale_peers,
}
use transfer_assistant.Discovery.Known.{IsPresent}
use transfer_assistant.Discovery.Handled.{
  IsNamed, announce-IsPresent, expire_all-IsPresent, handle_event-IsPresent, receive_all-IsPresent,
  refresh-IsPresent,
}

module _ (name_of : Text → Text) (local_id : Text) (socket_text : ℕ → ℕ → Text)
    (from_json : List ℕ → Option BroadcastAnnouncement) (has_socket : Bool)
    (announcement_packet response_packet : List ℕ) where
  turn-IsPresent :
      (b : Browser) (t : Turn)
      → IsNamed name_of t.event
      → IsPresent name_of b
      → IsPresent name_of
          (turn local_id socket_text from_json has_socket announcement_packet response_packet b t)
  unfolding turn
  turn-IsPresent b t ours m =
      let b1 = announce has_socket t.now t.interfaces announcement_packet b in
      let packets = if has_socket then t.packets else [] in
      let b2 = receive_all local_id socket_text from_json response_packet t.now b1 packets in
      let b3 = expire_all b2 (stale_peers t.now b2.broadcast_peers) in
      let m1 = announce-IsPresent name_of has_socket t.now t.interfaces announcement_packet b m in
      let m2 =
        receive_all-IsPresent name_of local_id socket_text from_json response_packet t.now b1
          packets m1 in
      let m3 = expire_all-IsPresent name_of b2 (stale_peers t.now b2.broadcast_peers) m2 in
      handle_event-IsPresent name_of local_id socket_text (refresh t.now t.browse_ok b3) t.event
        ours (refresh-IsPresent name_of t.now t.browse_ok b3 m3)

  turns_kept-IsPresent :
      (b : Browser) (ts : List Turn)
      → All (λ t. IsNamed name_of (Turn.event t)) ts
      → IsPresent name_of b
      → IsPresent name_of
          (turns local_id socket_text from_json has_socket announcement_packet response_packet b ts)
  unfolding turns
  turns_kept-IsPresent b [] ours m = m
  turns_kept-IsPresent b (t ∷ ts) ours m =
      turns_kept-IsPresent
        (turn local_id socket_text from_json has_socket announcement_packet response_packet b t) ts
        ours.1 (turn-IsPresent b t ours.0 m)

  -- If every service carries the name of its peer, then after any turns of the browsing thread from
  -- its start, each peer on its list of services or on its list of announcements is in the core's list
  -- and online, however services go and announcements expire, and every service on the list still
  -- carries the name of its peer.
  pub turns-IsPresent :
      (b : Browser) (ts : List Turn)
      → All (λ t. IsNamed name_of (Turn.event t)) ts
      → b.service_peers ≡ []
      → b.broadcast_peers ≡ []
      → IsPresent name_of
          (turns local_id socket_text from_json has_socket announcement_packet response_packet b ts)
  unfolding get
  turns-IsPresent b ts ours no_service unheard = turns_kept-IsPresent b ts ours (record {
    heard_online = λ id h. cc (rw unheard at h);
    served_online = λ id h. cc (rw no_service at h);
    named = rw no_service tt;
  })
