-- ===== src/Model/Lifecycle.antt =====
-- What the transition table of model.rs allows over whole histories of a transfer.
use transfer_assistant.Prelude.{
  ◌≡◌, refl, ap, true, false, ◌⊎◌, inl, inr, ◌≢◌, List, [], ◌∷◌, ◌++◌, Option, some, none, arith,
  ◌≤◌, length, if◌then◌else◌, Bool-cases,
}
use transfer_assistant.Model.{
  TransferState, preparing, connecting, pairing, waiting_for_acceptance, transferring, paused,
  interrupted, verifying, completed, failed, cancelled, is_terminal, can_transition_to,
}

-- The state after the requested transitions, if every one of them was allowed.
unfoldable pub run_states : TransferState → List TransferState → Option TransferState
run_states state [] = some state
run_states state (next ∷ rest) =
    let after = run_states next rest in if can_transition_to state next then after else none

abbrev pub verified : List TransferState
verified = verifying ∷ completed ∷ []

-- A history that ends by a verification.
abbrev pub EndsVerified : List TransferState → Type 0
EndsVerified states = (before : List TransferState) × (states ≡ before ++ verified)

ends_later :
    (x : TransferState) (states : List TransferState)
    → EndsVerified states
    → EndsVerified (x ∷ states)
ends_later x states (before, e) = (x ∷ before, ap (λ r. x ∷ r) e)

into_completed :
    (state : TransferState) → can_transition_to state completed ≡ true → state ≡ verifying
unfolding can_transition_to
into_completed state h = ground arith

run_step :
    (state next : TransferState) (rest : List TransferState) {last : TransferState}
    → run_states state (next ∷ rest) ≡ some last
    → (can_transition_to state next ≡ true) × (run_states next rest ≡ some last)
unfolding run_states
run_step state next rest h = elim (Bool-cases (can_transition_to state next)) [
  | inl allowed ↦ (allowed, rw allowed at h)
  | inr refused ↦ cc (rw refused at h)
]

abbrev Completing : TransferState → List TransferState → Type 0
Completing state states =
    ((state ≡ completed) × (states ≡ []))
    ⊎ ((state ≡ verifying) × (states ≡ completed ∷ []))
    ⊎ EndsVerified states

run-Completing :
    (state : TransferState) (states : List TransferState)
    → run_states state states ≡ some completed
    → Completing state states
unfolding run_states
run-Completing state [] h = inl (cc, refl)
run-Completing state (x ∷ xs) h =
    let (allowed, later) = run_step state x xs h in
    elim (run-Completing x xs later) [
      | inl (e, none_left) ↦ inr (inl (into_completed state (rw e at allowed), cc))
      | inr (inl (e, one_left)) ↦ inr (inr ([], cc))
      | inr (inr ends) ↦ inr (inr (ends_later x xs ends))
    ]

-- A transfer that is neither completed nor being verified becomes completed only by a history whose
-- last two transitions are to `Verifying` and to `Completed`.
pub completed_after_verifying :
    (state : TransferState) (states : List TransferState)
    → state ≢ completed
    → state ≢ verifying
    → run_states state states ≡ some completed
    → EndsVerified states
completed_after_verifying state states not_done not_verifying h =
    elim (run-Completing state states h) [
      | inl (e, _) ↦ absurd (not_done e)
      | inr (inl (e, _)) ↦ absurd (not_verifying e)
      | inr (inr ends) ↦ ends
    ]

-- From `Completed` and `Cancelled` no transition is allowed, and from every other state
-- cancellation is.
pub terminal_exactly :
    (state : TransferState)
    → (is_terminal state ≡ true → (next : TransferState) → can_transition_to state next ≡ false)
      × (is_terminal state ≡ false → can_transition_to state cancelled ≡ true)
unfolding can_transition_to
terminal_exactly completed = (λ h next. ground arith, λ h. cc)
terminal_exactly cancelled = (λ h next. ground arith, λ h. cc)
terminal_exactly state = (λ h. cc, λ h. refl)

-- The shortest way to `Completed`.
way_out : TransferState → List TransferState
way_out preparing = transferring ∷ verified
way_out connecting = transferring ∷ verified
way_out pairing = waiting_for_acceptance ∷ transferring ∷ verified
way_out waiting_for_acceptance = transferring ∷ verified
way_out transferring = verified
way_out paused = transferring ∷ verified
way_out interrupted = preparing ∷ transferring ∷ verified
way_out failed = preparing ∷ transferring ∷ verified
way_out _ = completed ∷ []

-- From every state that is not terminal, interrupted and failed ones included, a history of at
-- most four allowed transitions leads to `Completed`.
pub completion_reachable :
    (state : TransferState)
    → is_terminal state ≡ false
    → (states : List TransferState) × (run_states state states ≡ some completed)
      × (length states ≤ 4)
unfolding run_states can_transition_to way_out
completion_reachable completed h = cc
completion_reachable cancelled h = cc
completion_reachable state h = (way_out state, refl, omega arith)
