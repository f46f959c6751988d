-- ===== src/Discovery/Known.antt =====
-- What the browsing thread knows of peers, and what one change of its lists or of the core does to it.
use transfer_assistant.Prelude.{
  ℕ, ◌≡◌, refl, sym, ap, ◌∙◌, Bool, true, false, [], ◌∷◌, Option, none, some, Text, ◌=ₜ◌, any, All,
  arith, Bool-cases, Option-cases, inl, inr, if◌then◌else◌, Dict, get, insert, remove, get-insert,
  get-remove, list_eq, nat_eq, list_beq_iff,
}
use transfer_assistant.Core.{CoreState, PeerSummary, queue_peers_changed}
use transfer_assistant.Core.Peers.{mark_peer_offline, change_peer}
use transfer_assistant.Core.Peers
use transfer_assistant.Discovery.{Browser, upsert_peer}

abbrev pub is_heard : Text → Dict Text ℕ → Bool
is_heard id peers = present (get id peers)
  where
    present : Option ℕ → Bool
    present none = false
    present (some t) = true

abbrev pub is_served : Text → Dict Text Text → Bool
is_served id services = any (λ e. e.1 =ₜ id) services

abbrev pub online_of : Option PeerSummary → Bool
online_of none = false
online_of (some p) = PeerSummary.online p

-- In the core's list of peers, and online.
abbrev pub is_online : Text → CoreState → Bool
is_online id s = online_of (get id s.peers)

-- What the thread knows, online in the core; `name_of` is the name of a peer's service.
pub record IsPresent (name_of : Text → Text) (b : Browser) : Type 0 where
  pub heard_online : (id : Text) → is_heard id b.broadcast_peers ≡ true → is_online id b.core ≡ true
  pub served_online : (id : Text) → is_served id b.service_peers ≡ true → is_online id b.core ≡ true
  pub named : All (λ e. e.0 ≡ name_of e.1) b.service_peers

pub online_after_upsert :
    (s : CoreState) (peer_id name kind address id : Text)
    → ((peer_id =ₜ id) ≡ false → is_online id s ≡ true)
    → is_online id (upsert_peer s peer_id name kind address) ≡ true
unfolding upsert_peer Peers.upsert_peer queue_peers_changed
online_after_upsert s peer_id name kind address id before = elim (Bool-cases (peer_id =ₜ id)) [
  | inl e ↦ rw (get-insert peer_id id _ s.peers, e) refl
  | inr e ↦ rw (get-insert peer_id id _ s.peers, e) (before e)
]

pub online_after_mark :
    (s : CoreState) (peer_id id : Text)
    → (peer_id =ₜ id) ≡ false
    → is_online id s ≡ true
    → is_online id (mark_peer_offline s peer_id) ≡ true
unfolding mark_peer_offline queue_peers_changed
online_after_mark s peer_id id other online = elim (Option-cases (get peer_id s.peers)) [
  | inl unknown ↦ rw unknown online
  | inr (p, known) ↦
      rw (known, get-insert peer_id id (record p { online = false }) s.peers, other) online
]

pub or_true : (b c : Bool) → c ≡ true → (if b then true else c) ≡ true
or_true true c h = refl
or_true false c h = h

pub other_heard :
    (peer_id id : Text) (d : Dict Text ℕ)
    → is_heard id (remove peer_id d) ≡ true
    → ((peer_id =ₜ id) ≡ false) × (is_heard id d ≡ true)
other_heard peer_id id d h = elim (Bool-cases (peer_id =ₜ id)) [
  | inl e ↦ cc (rw (get-remove peer_id id d, e) at h)
  | inr e ↦ (e, rw (get-remove peer_id id d, e) at h)
]

pub heard_before :
    (peer_id id : Text) (now : ℕ) (d : Dict Text ℕ)
    → is_heard id (insert peer_id now d) ≡ true
    → (peer_id =ₜ id) ≡ false
    → is_heard id d ≡ true
heard_before peer_id id now d h e = rw (get-insert peer_id id now d, e) at h

pub other_unheard :
    (peer_id id : Text) (d : Dict Text ℕ)
    → get peer_id d ≡ none
    → is_heard id d ≡ true
    → (peer_id =ₜ id) ≡ false
other_unheard peer_id id d absent h = elim (Bool-cases (peer_id =ₜ id)) [
  | inl e ↦
      let same : peer_id ≡ id = (list_beq_iff nat_eq peer_id id).0 e in
      cc (rw (rw same at absent) at h)
  | inr e ↦ e
]

pub other_served :
    (peer_id id : Text) (d : Dict Text Text)
    → is_served id d ≡ true
    → is_served peer_id d ≡ false
    → (peer_id =ₜ id) ≡ false
other_served peer_id id d h absent = elim (Bool-cases (peer_id =ₜ id)) [
  | inl e ↦
      let same : peer_id ≡ id = (list_beq_iff nat_eq peer_id id).0 e in cc (rw same at absent, h)
  | inr e ↦ e
]

pub served_before :
    (fullname peer_id id : Text) (d : Dict Text Text)
    → is_served id (insert fullname peer_id d) ≡ true
    → (peer_id =ₜ id) ≡ false
    → is_served id d ≡ true
unfolding insert
served_before fullname peer_id id [] h e = cc (rw e at h)
served_before fullname peer_id id ((k, v) ∷ d) h e = elim (Bool-cases (k =ₜ fullname)) [
  | inl here ↦ let h1 = rw here at h in or_true (v =ₜ id) (is_served id d) (rw e at h1)
  | inr other ↦
      let h1 = rw other at h in
      elim (Bool-cases (v =ₜ id)) [
        | inl is ↦ rw is refl
        | inr not_it ↦ rw not_it (served_before fullname peer_id id d (rw not_it at h1) e)
      ]
]

module _ (name_of : Text → Text) where
  abbrev pub Named : Dict Text Text → Type 0
  Named d = All (λ e. e.0 ≡ name_of e.1) d

  pub insert-Named :
      (fullname peer_id : Text) (d : Dict Text Text)
      → fullname ≡ name_of peer_id
      → Named d
      → Named (insert fullname peer_id d)
  unfolding insert
  insert-Named fullname peer_id [] e named = (e, tt)
  insert-Named fullname peer_id ((k, v) ∷ d) e named = elim (Bool-cases (k =ₜ fullname)) [
    | inl here ↦ rw here (e, named.1)
    | inr other ↦ rw other (named.0, insert-Named fullname peer_id d e named.1)
  ]

  pub remove-Named : (fullname : Text) (d : Dict Text Text) → Named d → Named (remove fullname d)
  unfolding remove
  remove-Named fullname [] named = tt
  remove-Named fullname ((k, v) ∷ d) named = elim (Bool-cases (k =ₜ fullname)) [
    | inl here ↦ rw here (remove-Named fullname d named.1)
    | inr other ↦ rw other (named.0, remove-Named fullname d named.1)
  ]

  pub get-Named :
      (fullname peer_id : Text) (d : Dict Text Text)
      → Named d
      → get fullname d ≡ some peer_id
      → fullname ≡ name_of peer_id
  unfolding get
  get-Named fullname peer_id [] named h = cc
  get-Named fullname peer_id ((k, v) ∷ d) named h = elim (Bool-cases (k =ₜ fullname)) [
    | inl here ↦
        let same : k ≡ fullname = (list_beq_iff nat_eq k fullname).0 here in
        let value : v ≡ peer_id = ground arith in sym same ∙ named.0 ∙ ap name_of value
    | inr other ↦ get-Named fullname peer_id d named.1 (rw other at h)
  ]

  -- A service that is removed was the only one of its peer.
  pub other_service :
      (fullname peer_id id : Text) (d : Dict Text Text)
      → Named d
      → fullname ≡ name_of peer_id
      → is_served id (remove fullname d) ≡ true
      → ((peer_id =ₜ id) ≡ false) × (is_served id d ≡ true)
  unfolding remove
  other_service fullname peer_id id [] named e h = cc
  other_service fullname peer_id id ((k, v) ∷ d) named e h = elim (Bool-cases (k =ₜ fullname)) [
    | inl here ↦
        let (apart, served) = other_service fullname peer_id id d named.1 e (rw here at h) in
        (apart, or_true (v =ₜ id) (is_served id d) served)
    | inr other ↦
        let h1 = rw other at h in
        elim (Bool-cases (v =ₜ id)) [
          | inl is ↦ (
            elim (Bool-cases (peer_id =ₜ id)) [
              | inl same ↦
                  let p = (list_beq_iff nat_eq peer_id id).0 same in
                  let q = (list_beq_iff nat_eq v id).0 is in
                  let r =
                    (list_beq_iff nat_eq k fullname).1 (named.0 ∙ ap name_of (q ∙ sym p) ∙ sym e) in
                  cc (r, other)
              | inr apart ↦ apart
            ],
            rw is refl,
          )
          | inr not_it ↦
              let (apart, served) =
                other_service fullname peer_id id d named.1 e (rw not_it at h1) in
              (apart, rw not_it served)
        ]
  ]
