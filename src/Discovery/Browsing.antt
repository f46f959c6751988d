-- ===== src/Discovery/Browsing.antt =====
-- The browsing thread of native/transfer_core/src/mdns.rs. `now` is the time of the turn in
-- milliseconds; a datagram has at most the 2048 bytes of the buffer.
use transfer_assistant.Prelude.{
  ℕ, ◌+◌, ◌-◌, Bool, true, false, not, ◌||◌, List, [], ◌∷◌, ◌++◌, map, Option, none, some, Text,
  text, ◌=ₜ◌, any, filter, leb, ltb, ◌==◌, if◌then◌else◌, is_empty, starts_with, drop, length,
  sort_by, leb_text, Dict, get, insert, remove, list_eq, nat_eq,
}
use transfer_assistant.Protocol.Messages.{protocol_major}
use transfer_assistant.Core.Peers.{mark_peer_offline}
use transfer_assistant.Discovery.{
  IpAddr, v4, v6, is_loopback, BroadcastAnnouncement, discovery_magic, Interface, broadcast_targets,
  upsert_peer, Browser, Packet, ServiceInfo, ServiceEvent, service_resolved, service_removed,
  other_event,
}

unfoldable pub encode_broadcast_announcement :
    (BroadcastAnnouncement → Option (List ℕ)) → BroadcastAnnouncement → Option (List ℕ)
encode_broadcast_announcement to_json announcement = packet (to_json announcement)
  where
    packet : Option (List ℕ) → Option (List ℕ)
    packet none = none
    packet (some payload) = some (discovery_magic ++ payload)

unfoldable pub decode_broadcast_announcement :
    (List ℕ → Option BroadcastAnnouncement) → List ℕ → Option BroadcastAnnouncement
decode_broadcast_announcement from_json packet =
    if starts_with packet discovery_magic
    then from_json (drop (length discovery_magic) packet)
    else none

-- `addresses.join(",")`.
unfoldable pub join : List Text → Text
join [] = []
join (x ∷ []) = x
join (x ∷ y ∷ rest) = let others = join (y ∷ rest) in x ++ (b',' ∷ others)

abbrev unwrap_or : Option Text → Text → Text
unwrap_or none d = d
unwrap_or (some t) d = t

-- A peer that announced itself and was not heard for too long.
unfoldable pub expire_peer : Browser → Text → Browser
expire_peer b peer_id = record b {
  broadcast_peers = remove peer_id b.broadcast_peers;
  core =
      if any (λ e. e.1 =ₜ peer_id) b.service_peers
      then b.core
      else mark_peer_offline b.core peer_id;
}

abbrev pub stale_peers : ℕ → Dict Text ℕ → List Text
stale_peers now peers = map (λ e. e.0) (filter (λ e. ltb 12000 (now - e.1)) peers)

unfoldable pub expire_all : Browser → List Text → Browser
unfolding expire_peer
expire_all b [] = b
expire_all b (peer_id ∷ rest) = expire_all (expire_peer b peer_id) rest

module _ (local_id : Text) (socket_text : ℕ → ℕ → Text) where
  module _ (from_json : List ℕ → Option BroadcastAnnouncement) (response_packet : List ℕ) where
    unfoldable pub hear : Browser → ℕ → BroadcastAnnouncement → IpAddr → Browser
    hear b now peer (v6 a) = b
    hear b now peer (v4 a) = if is_loopback (v4 a) then b else record b {
      sent = if peer.reply_requested then b.sent ++ (a, response_packet) ∷ [] else b.sent;
      core = upsert_peer b.core peer.id peer.name peer.kind (socket_text a peer.port);
      broadcast_peers = insert (BroadcastAnnouncement.id peer) now b.broadcast_peers;
    }

    -- One datagram.
    unfoldable pub receive : ℕ → Browser → Packet → Browser
    receive now b packet = decoded (decode_broadcast_announcement from_json packet.bytes)
      where
        decoded : Option BroadcastAnnouncement → Browser
        decoded none = b
        decoded (some peer) =
            if (BroadcastAnnouncement.id peer =ₜ local_id)
              || (not (BroadcastAnnouncement.version peer == protocol_major)
                  || (BroadcastAnnouncement.port peer == 0))
            then b
            else hear b now peer packet.source

    unfoldable pub receive_all : ℕ → Browser → List Packet → Browser
    unfolding receive
    receive_all now b [] = b
    receive_all now b (packet ∷ rest) = receive_all now (receive now b packet) rest

  abbrev addresses_text : ServiceInfo → ℕ → Text
  addresses_text info first =
      let usable = filter (λ a. not (is_loopback (v4 a))) info.addresses in
      if is_empty usable
      then socket_text first info.port
      else join (sort_by leb_text (map (λ a. socket_text a (ServiceInfo.port info)) usable))

  -- A resolved service with an address, of another device.
  unfoldable pub serve : Browser → ServiceInfo → Text → List ℕ → Browser
  serve b info peer_id [] = b
  serve b info peer_id (first ∷ rest) = record b {
    core =
        upsert_peer b.core peer_id (unwrap_or info.name peer_id)
          (unwrap_or info.kind (text "computer")) (addresses_text info first);
    service_peers = insert (ServiceInfo.fullname info) peer_id b.service_peers;
  }

  unfoldable pub resolve : Browser → ServiceInfo → Browser
  resolve b info = of_id info.id
    where
      of_id : Option Text → Browser
      of_id none = b
      of_id (some peer_id) = if peer_id =ₜ local_id then b else serve b info peer_id info.addresses

  unfoldable pub remove_service : Browser → Text → Browser
  remove_service b fullname = of_peer (get fullname b.service_peers)
    where
      is_some : Option ℕ → Bool
      is_some none = false
      is_some (some t) = true

      of_peer : Option Text → Browser
      of_peer none = b
      of_peer (some peer_id) = record b {
        service_peers = remove fullname b.service_peers;
        core =
            if is_some (get peer_id b.broadcast_peers)
            then b.core
            else mark_peer_offline b.core peer_id;
      }

  unfoldable pub handle_event : Browser → ServiceEvent → Browser
  unfolding resolve remove_service
  handle_event b (service_resolved info) = resolve b info
  handle_event b (service_removed fullname) = remove_service b fullname
  handle_event b other_event = b

-- Searching again, with whether the daemon accepts it.
unfoldable pub refresh : ℕ → Bool → Browser → Browser
refresh now browse_ok b =
    if b.refresh_requested || leb b.next_refresh now
    then record b {
      refresh_requested = false;
      next_refresh = if browse_ok then now + 30000 else now + 5000;
    }
    else b

-- The socket for broadcasts may be missing.
unfoldable pub announce : Bool → ℕ → List Interface → List ℕ → Browser → Browser
announce has_socket now interfaces announcement_packet b =
    if leb b.next_broadcast now
    then record b {
      sent =
          if has_socket
          then b.sent
            ++ map (λ target. (target, announcement_packet)) (broadcast_targets interfaces)
          else b.sent;
      next_broadcast = now + 3000;
    }
    else b

-- What one turn of the loop meets.
pub record Turn : Type 0 where
  pub now : ℕ
  pub interfaces : List Interface
  pub packets : List Packet
  pub browse_ok : Bool
  pub event : ServiceEvent

module _ (local_id : Text) (socket_text : ℕ → ℕ → Text)
    (from_json : List ℕ → Option BroadcastAnnouncement) (has_socket : Bool)
    (announcement_packet response_packet : List ℕ) where
  unfoldable pub turn : Browser → Turn → Browser
  turn b t =
      let b1 = announce has_socket t.now t.interfaces announcement_packet b in
      let b2 =
        receive_all local_id socket_text from_json response_packet t.now b1
          (if has_socket then t.packets else []) in
      let b3 = expire_all b2 (stale_peers t.now b2.broadcast_peers) in
      handle_event local_id socket_text (refresh t.now t.browse_ok b3) t.event

  unfoldable pub turns : Browser → List Turn → Browser
  turns b [] = b
  turns b (t ∷ ts) = turns (turn b t) ts
