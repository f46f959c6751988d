-- ===== src/Examples/Peers.antt =====
-- Two turns of the browsing thread: a phone's service is found, then it announces itself.
use transfer_assistant.Prelude.{
  ◌≡◌, refl, ap, ◌++◌, [], ◌∷◌, none, some, true, false, Text, text, arith,
}
use transfer_assistant.App.{App}
use transfer_assistant.Discovery.{
  BroadcastAnnouncement, discovery_magic, v4, Browser, service_resolved, service_removed,
}
use transfer_assistant.Discovery.Browsing.{Turn, turns}
use transfer_assistant.Discovery.Known.{IsPresent}
use transfer_assistant.Discovery.Presence.{turns-IsPresent}
use transfer_assistant.Examples.Runs.{started}

abbrev name_of : Text → Text
name_of id = id ++ text ".local"

abbrev announced : BroadcastAnnouncement
announced = record {
  id = text "phone";
  name = text "P";
  kind = text "phone";
  port = 53317;
  version = 1;
  reply_requested = true;
}

abbrev idle : Browser
idle = record {
  core = App.core started;
  service_peers = [];
  broadcast_peers = [];
  next_refresh = 30000;
  next_broadcast = 0;
  refresh_requested = false;
  sent = [];
}

abbrev found : Turn
found = record {
  now = 5;
  interfaces = [];
  packets = [];
  browse_ok = true;
  event = service_resolved (record {
    fullname = text "phone.local";
    id = some (text "phone");
    name = none;
    kind = none;
    addresses = 3232235777 ∷ [];
    port = 53317;
  });
}

abbrev heard : Turn
heard = record {
  now = 400;
  interfaces = [];
  packets = record { bytes = discovery_magic ++ 123 ∷ []; source = v4 3232235777 } ∷ [];
  browse_ok = true;
  event = service_removed (text "phone.local");
}

turns-IsPresent_example : IsPresent name_of (
    turns
      (text "desk")
      (λ ip port. text "a")
      (λ bytes. some announced)
      true
      (1 ∷ [])
      (2 ∷ [])
      idle
      (found ∷ heard ∷ []))
turns-IsPresent_example =
    turns-IsPresent name_of (text "desk") (λ ip port. text "a") (λ bytes. some announced) true
      (1 ∷ []) (2 ∷ []) idle (found ∷ heard ∷ []) ((λ id e. named id e), (tt, tt)) refl refl
  where
    named : (id : Text) → some (text "phone") ≡ some id → text "phone.local" ≡ name_of id
    named id e = let is : text "phone" ≡ id = ground arith in ap name_of is
