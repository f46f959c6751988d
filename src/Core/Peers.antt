-- ===== src/Core/Peers.antt =====
-- The peers and the settings of core.rs.
use transfer_assistant.Prelude.{
  ℕ, Bool, true, false, not, List, [], ◌∷◌, Option, none, some, Result, ok, err, Text, text, ◌=ₜ◌,
  ℤ, any, if◌then◌else◌, is_empty, trim, get, insert, remove, list_eq, nat_eq,
}
use transfer_assistant.Model.{
  TransferSnapshot, TransferState, failed, interrupted, is_cancelled_state, TrustedPeer,
}
use transfer_assistant.Persistence.{TransferRepository, trusted_peer}
use transfer_assistant.Core.{
  CoreState, CoreError, PeerSummary, empty_device_name, invalid_theme_mode, queue_peers_changed,
}
use transfer_assistant.Persistence

unfoldable pub upsert_peer : CoreState → PeerSummary → CoreState
upsert_peer s p = queue_peers_changed (record s { peers = insert (PeerSummary.id p) p s.peers })

-- `if let Some(peer) = state.peers.get_mut(peer_id)`.
abbrev pub change_peer : (PeerSummary → PeerSummary) → Text → CoreState → CoreState
change_peer f peer_id s = changed (get peer_id s.peers)
  where
    changed : Option PeerSummary → CoreState
    changed none = s
    changed (some p) = record s { peers = insert peer_id (f p) s.peers }

unfoldable pub mark_peer_offline : CoreState → Text → CoreState
mark_peer_offline s peer_id =
    queue_peers_changed (change_peer (λ p. record p { online = false }) peer_id s)

unfoldable pub update_peer_identity :
    CoreState → Option Text → Text → Text → Text → Text → Bool → CoreState
update_peer_identity s old_peer_id peer_id name address device_kind trusted =
    queue_peers_changed (record s {
      peers =
          insert peer_id
            (record {
              id = peer_id;
              name = name;
              address = address;
              device_kind = device_kind;
              trusted = trusted;
              online = true;
            })
            (without old_peer_id);
    })
  where
    without : Option Text → List (Text × PeerSummary)
    without none = s.peers
    without (some old) = if old =ₜ peer_id then s.peers else remove old s.peers

unfoldable pub trust_peer : CoreState → ℤ → Text → Text → Text → CoreState
trust_peer s now peer_id display_name certificate_fingerprint = queue_peers_changed (
    change_peer (λ p. record p { trusted = true }) peer_id
      (record s {
        repository = Persistence.trust_peer s.repository (record {
          peer_id = peer_id;
          display_name = display_name;
          certificate_fingerprint = certificate_fingerprint;
          created_unix_ms = created (trusted_peer s.repository peer_id);
          last_seen_unix_ms = now;
          auto_accept = false;
        });
      }))
  where
    created : Option TrustedPeer → ℤ
    created none = now
    created (some p) = p.created_unix_ms

unfoldable pub is_trusted : CoreState → Text → Text → Bool
is_trusted s peer_id fingerprint = pinned (trusted_peer s.repository peer_id)
  where
    pinned : Option TrustedPeer → Bool
    pinned none = false
    pinned (some p) = p.certificate_fingerprint =ₜ fingerprint

unfoldable pub transfer_is_cancelled : CoreState → ℕ → Bool
transfer_is_cancelled s id = state_is (get id s.transfers)
  where
    state_is : Option TransferSnapshot → Bool
    state_is none = false
    state_is (some t) = is_cancelled_state t.state

abbrev pub has_stopped : TransferState → Bool
has_stopped failed = true
has_stopped interrupted = true
has_stopped _ = false

unfoldable pub transfer_is_failed : CoreState → ℕ → Bool
transfer_is_failed s id = state_is (get id s.transfers)
  where
    state_is : Option TransferSnapshot → Bool
    state_is none = false
    state_is (some t) = has_stopped t.state

-- Of the configuration: the device's name, the mode and the style of the theme.
unfoldable pub validate_config : Text → Text → Text → Result CoreError (Unit {0})
validate_config device_name theme_mode theme_style =
    if is_empty (trim device_name)
    then err empty_device_name
    else if not (any (λ m. m =ₜ theme_mode) (text "system" ∷ text "light" ∷ text "dark" ∷ []))
    then err (invalid_theme_mode theme_mode)
    else if not (
        any (λ m. m =ₜ theme_style)
          (text "radar"
            ∷ text "chat"
            ∷ text "workspace"
            ∷ text "matrix"
            ∷ text "glass"
            ∷ text "cyber"
            ∷ text "swiss"
            ∷ text "warm"
            ∷ []))
    then err (invalid_theme_mode theme_style)
    else ok tt
