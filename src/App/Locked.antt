-- ===== src/App/Locked.antt =====
-- The functions of core.rs that hold the lock for their whole body leave memory and repository with the
-- same states.
use transfer_assistant.Prelude.{ℕ, ◌≡◌, ok, ℤ, insert, nat_eq}
use transfer_assistant.Model.{TransferSnapshot, TransferCommand}
use transfer_assistant.Persistence.{upsert_transfer}
use transfer_assistant.Core.{CoreState}
use transfer_assistant.Core.Handlers.{command_transfer}
use transfer_assistant.Core.Lifetime.{CoreStep}
use transfer_assistant.App.Mirror.{Mirrors}
use transfer_assistant.App.Mirrored.{put-Mirrors, unsaved-Mirrors}
use transfer_assistant.App.Effects.{puts, puts_unsaved, stays, Does, step-Does, command-Does}

-- Memory and repository of a state.
abbrev pub IsMirrored : CoreState → Type 0
IsMirrored s = Mirrors s.transfers s.repository.transfers

pub still-IsMirrored :
    (s s' : CoreState)
    → s'.transfers ≡ s.transfers
    → s'.repository.transfers ≡ s.repository.transfers
    → IsMirrored s
    → IsMirrored s'
still-IsMirrored s s' is saved m = rw (is, saved) m

pub put-IsMirrored :
    (s s' : CoreState) (id : ℕ) (t : TransferSnapshot)
    → IsMirrored s
    → t.id ≡ id
    → s'.transfers ≡ insert id t s.transfers
    → s'.repository.transfers ≡ upsert_transfer t s.repository.transfers
    → IsMirrored s'
put-IsMirrored s s' id t m e is saved =
    rw (is, saved) (put-Mirrors s.transfers s.repository.transfers m id t e)

Does-IsMirrored : (s s' : CoreState) → Does s s' → IsMirrored s → IsMirrored s'
Does-IsMirrored s s' (puts id t e is saved) m = put-IsMirrored s s' id t m e is saved
Does-IsMirrored s s' (puts_unsaved id old t found e still is saved) m =
    rw (is, saved) (unsaved-Mirrors s.transfers s.repository.transfers m id old t found e still)
Does-IsMirrored s s' (stays is saved) m = still-IsMirrored s s' is saved m

module _ (speed_of : ℕ → ℕ → ℕ) where
  pub step-IsMirrored : {s s' : CoreState} → CoreStep speed_of s s' → IsMirrored s → IsMirrored s'
  step-IsMirrored {s} {s'} step m = Does-IsMirrored s s' (step-Does speed_of step m.keyed) m

pub command-IsMirrored :
    (s : CoreState) (id : ℕ) (now : ℤ) (c : TransferCommand) (s' : CoreState)
    → IsMirrored s
    → command_transfer s id now c ≡ ok s'
    → IsMirrored s'
command-IsMirrored s id now c s' m h = Does-IsMirrored s s' (command-Does s id now c s' m.keyed h) m
