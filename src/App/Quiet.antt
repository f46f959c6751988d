-- ===== src/App/Quiet.antt =====
-- The calls of the application that do not touch the transfers.
use transfer_assistant.Prelude.{
  branch_keeps, ℕ, Bool, false, Option, Text, get, nat_eq, ◌≡◌, ℤ, List, ok, any, arith, ◌&&◌,
  list_eq, Option-cases, Bool-cases, inl, inr,
}
use transfer_assistant.Persistence
use transfer_assistant.Persistence.{
  TransferRepository, has_transfer, has_item, remove_trusted_peer, clear_trusted_peers,
}
use transfer_assistant.Persistence.Statements.{save_setting, is_row, mark_chunk_complete}
use transfer_assistant.Core.{CoreState, PeerSummary, CoreConfig, TransferOffer, queue_peers_changed}
use transfer_assistant.Core.Peers.{
  upsert_peer, validate_config, change_peer, mark_peer_offline, trust_peer,
}
use transfer_assistant.App.{App}
use transfer_assistant.App.Requests.{
  connect_address, request_answer, answer_offer, update_settings, forget_peer, forget_peers,
}
use transfer_assistant.App.Locked.{IsMirrored}
use transfer_assistant.App.Calls.{Leaves, running_keeps, checked_keeps}

module _ (a : App) (m : IsMirrored a.core) where
  pub connect_address-Leaves :
      (parse_address : Text → Option Text) (address : Text)
      → Leaves (connect_address parse_address a address)
  unfolding connect_address upsert_peer queue_peers_changed
  connect_address-Leaves parse_address address =
      running_keeps Leaves a _ m (checked_keeps Leaves a _ _ (λ e. m) (λ parsed h. m))

  pub request_answer-Leaves :
      (parse_uuid : Text → Option ℕ) (offer : TransferOffer)
      → Leaves (request_answer parse_uuid a offer)
  unfolding request_answer
  request_answer-Leaves parse_uuid offer = checked_keeps Leaves a _ _ (λ e. m) (λ id h. m)

  pub answer_offer-Leaves :
      (id : ℕ) (accept remember_peer : Bool) → Leaves (answer_offer a id accept remember_peer)
  unfolding answer_offer
  answer_offer-Leaves id accept remember_peer =
      running_keeps Leaves a _ m (elim (Option-cases (get id a.pending_answers)) [
        | inl unknown ↦ rw unknown m
        | inr (waits, known) ↦ elim (Bool-cases waits) [
          | inl still ↦ rw (known, still) m
          | inr gone ↦ rw (known, gone) m
        ]
      ])

  pub update_settings-Leaves :
      (receive_ok : Text → Bool) (settings_json : CoreConfig → Text) (config : CoreConfig)
      → Leaves (update_settings receive_ok settings_json a config)
  unfolding update_settings save_setting
  update_settings-Leaves receive_ok settings_json config = running_keeps Leaves a _ m (
      checked_keeps Leaves a
        (validate_config config.device_name config.theme_mode config.theme_style) _ (λ e. m)
        (λ valid h. branch_keeps Leaves (receive_ok config.receive_directory) _ _ m m))

  pub forget_peer-Leaves : (peer_id : Text) → Leaves (forget_peer a peer_id)
  unfolding forget_peer remove_trusted_peer queue_peers_changed
  forget_peer-Leaves peer_id =
      running_keeps Leaves a _ m
        (elim (Bool-cases (remove_trusted_peer (CoreState.repository a.core) peer_id).1) [
          | inl removed ↦ rw removed m
          | inr absent ↦ rw absent m
        ])

  pub forget_peers-Leaves : Leaves (forget_peers a)
  unfolding forget_peers clear_trusted_peers queue_peers_changed
  forget_peers-Leaves = running_keeps Leaves a _ m m

module _ (s : CoreState) (m : IsMirrored s) where
  change_peer-IsMirrored :
      (f : PeerSummary → PeerSummary) (peer_id : Text) → IsMirrored (change_peer f peer_id s)
  change_peer-IsMirrored f peer_id = elim (Option-cases (get peer_id s.peers)) [
    | inl unknown ↦ rw unknown m
    | inr (peer, known) ↦ rw known m
  ]

  pub mark_peer_offline-IsMirrored : (peer_id : Text) → IsMirrored (mark_peer_offline s peer_id)
  unfolding mark_peer_offline queue_peers_changed
  mark_peer_offline-IsMirrored peer_id =
      change_peer-IsMirrored (λ p. record p { online = false }) peer_id

pub trust_peer-IsMirrored :
    (s : CoreState) (now : ℤ) (peer_id display_name fingerprint : Text)
    → IsMirrored s
    → IsMirrored (trust_peer s now peer_id display_name fingerprint)
unfolding trust_peer queue_peers_changed Persistence.trust_peer
trust_peer-IsMirrored s now peer_id display_name fingerprint m =
    elim (Option-cases (get peer_id s.peers)) [
      | inl unknown ↦ rw unknown m
      | inr (peer, known) ↦ rw known m
    ]

pub mark_chunk_complete-transfers :
    (r : TransferRepository) (id : ℕ) (item_id : Text) (index : ℕ) (hash : List ℕ)
    (r' : TransferRepository) (fresh : Bool)
    → mark_chunk_complete r id item_id index hash ≡ ok (r', fresh)
    → r'.transfers ≡ r.transfers
unfolding mark_chunk_complete
mark_chunk_complete-transfers r id item_id index hash r' fresh h =
    elim (Bool-cases (any (is_row id item_id index) r.completed_chunks)) [
      | inl present ↦ let is = rw present at h in ground arith
      | inr absent ↦
          let h1 = rw absent at h in
          elim (Bool-cases (has_transfer r id && has_item r item_id)) [
            | inl known ↦ let is = rw known at h1 in ground arith
            | inr unknown ↦ cc (rw unknown at h1)
          ]
    ]
