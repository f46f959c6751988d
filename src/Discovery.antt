-- ===== src/Discovery.antt =====
-- native/transfer_core/src/mdns.rs: the interfaces that are used, the announcements by broadcast, and
-- the thread that browses, one function for each thing that it handles. The daemon of mDNS, the
-- sockets and JSON are parameters: `to_json` and `from_json` for an announcement, `socket_text` for the
-- text of a socket address. The clock stands still during one turn of the loop. A map keeps its
-- entries in a list, whose order is that of an iteration.
pub mod Browsing
pub mod Known
pub mod Handled
pub mod Presence
use transfer_assistant.Prelude.{
  ℕ, ◌+◌, ◌*◌, ◌-◌, ◌/◌, ◌^◌, Bool, true, false, not, ◌&&◌, ◌||◌, List, [], ◌∷◌, ◌++◌, map, Option,
  none, some, Text, text, ◌=ₜ◌, any, find, filter, leb, ltb, ◌==◌, if◌then◌else◌, is_empty,
  starts_with, drop, length, sort_by, leb_text, Dict, get, insert, remove, list_eq, nat_eq,
}
use transfer_assistant.Persistence.{trusted_peer}
use transfer_assistant.Model.{TrustedPeer}
use transfer_assistant.Core.{CoreState, PeerSummary, values}
use transfer_assistant.Core.Peers
use transfer_assistant.Core.Peers.{mark_peer_offline}

-- A V4 address as a number of 32 bits.
pub data IpAddr : Type 0 where
  v4 v6 : ℕ → IpAddr

abbrev pub is_ipv4 : IpAddr → Bool
is_ipv4 (v4 a) = true
is_ipv4 (v6 a) = false

abbrev pub is_loopback : IpAddr → Bool
is_loopback (v4 a) = a / 2 ^ 24 == 127
is_loopback (v6 a) = a == 1

unfoldable pub is_cellular_interface : Text → Bool
is_cellular_interface name =
    any (λ prefix. starts_with name prefix)
      (text "ccmni" ∷ text "rmnet" ∷ text "pdp" ∷ text "swlan" ∷ text "wwan" ∷ text "radio" ∷ [])

unfoldable pub should_advertise_interface : Text → IpAddr → Bool → Bool
should_advertise_interface name address is_oper_up =
    is_oper_up
    && (is_ipv4 address && (not (is_loopback address) && not (is_cellular_interface name)))

pub record DiscoveryInterface : Type 0 where
  pub address : ℕ
  pub broadcast : ℕ

pub record BroadcastAnnouncement : Type 0 where
  pub id : Text
  pub name : Text
  pub kind : Text
  pub port : ℕ
  pub version : ℕ
  pub reply_requested : Bool

abbrev pub discovery_magic : List ℕ
discovery_magic = text "TRANSASSIST-DISCOVERY/1" ++ 0 ∷ []

-- An interface of the system: its name, whether it is up, its address and, of V4, the broadcast one.
pub record Interface : Type 0 where
  pub name : Text
  pub is_oper_up : Bool
  pub address : IpAddr
  pub broadcast : Option ℕ

abbrev pub broadcast_all : ℕ
broadcast_all = 2 ^ 32 - 1

abbrev broadcast_of : Option ℕ → ℕ
broadcast_of none = broadcast_all
broadcast_of (some b) = b

-- `collect::<HashSet<_>>()`.
unfoldable pub distinct {ℓ} : {A : Type ℓ} → (A → A → Bool) → List A → List A
distinct same [] = []
distinct same (x ∷ xs) = let rest = distinct same xs in if any (same x) rest then rest else x ∷ rest

unfoldable pub discovery_interface : Interface → List DiscoveryInterface
discovery_interface iface =
    if not iface.is_oper_up || is_cellular_interface iface.name
    then []
    else of_address (Interface.address iface)
  where
    of_address : IpAddr → List DiscoveryInterface
    of_address (v6 a) = []
    of_address (v4 a) =
        if should_advertise_interface iface.name (v4 a) iface.is_oper_up
        then record { address = a; broadcast = broadcast_of iface.broadcast } ∷ []
        else []

unfoldable pub all_interfaces : List Interface → List DiscoveryInterface
all_interfaces [] = []
all_interfaces (iface ∷ rest) = discovery_interface iface ++ all_interfaces rest

unfoldable pub discovery_interfaces : List Interface → List DiscoveryInterface
unfolding distinct all_interfaces
discovery_interfaces ifaces =
    distinct
      (λ a b.
        (DiscoveryInterface.address a == b.address)
        && (DiscoveryInterface.broadcast a == b.broadcast))
      (all_interfaces ifaces)

-- The addresses; the port is that of the discovery.
unfoldable pub broadcast_targets : List Interface → List ℕ
unfolding distinct
broadcast_targets ifaces =
    distinct ◌==◌ (broadcast_all ∷ map DiscoveryInterface.broadcast (discovery_interfaces ifaces))

-- `upsert_peer` of mdns.rs.
unfoldable pub upsert_peer : CoreState → Text → Text → Text → Text → CoreState
upsert_peer s peer_id name kind address = Peers.upsert_peer s (record {
  id = peer_id;
  name = name;
  address = address;
  device_kind = kind;
  trusted = is_some (trusted_peer s.repository peer_id);
  online = true;
})
  where
    is_some : Option TrustedPeer → Bool
    is_some none = false
    is_some (some p) = true

-- What the browsing thread keeps: the peers by the names of their services, when each peer that
-- announces itself was last heard, the next times, the requests to search again, and what it sent.
pub record Browser : Type 0 where
  pub core : CoreState
  pub service_peers : Dict Text Text
  pub broadcast_peers : Dict Text ℕ
  pub next_refresh : ℕ
  pub next_broadcast : ℕ
  pub refresh_requested : Bool
  pub sent : List (ℕ × List ℕ)

-- A datagram: its bytes, and the address and the port that it came from.
pub record Packet : Type 0 where
  pub bytes : List ℕ
  pub source : IpAddr

-- What a resolved service tells.
pub record ServiceInfo : Type 0 where
  pub fullname : Text
  pub id : Option Text
  pub name : Option Text
  pub kind : Option Text
  pub addresses : List ℕ
  pub port : ℕ

pub data ServiceEvent : Type 0 where
  service_resolved : ServiceInfo → ServiceEvent
  service_removed : Text → ServiceEvent
  other_event : ServiceEvent
