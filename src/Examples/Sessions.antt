-- ===== src/Examples/Sessions.antt =====
-- Concrete names, greetings, pairings and interleavings.
use transfer_assistant.Prelude.{
  ◌≡◌, ◌↔◌, ◌⊎◌, refl, ok, none, some, true, false, Bool, ◌=ₜ◌, [], ◌∷◌, arith, text, Text,
  is_empty, trim, decimal, file_name, rsplit_once, split, split_first, trim_end_matches,
}
use transfer_assistant.PathSafety.{
  candidate, is_free, unique_target_name, sanitize_target_segment, is_reserved, suffixed_name,
}
use transfer_assistant.PathSafety.Unique.{FirstFree, unique_target_name_lem}
use transfer_assistant.PathSafety.Names.{IsPlainName, sanitize_target_segment_outcome}
use transfer_assistant.Protocol.Messages.{Hello}
use transfer_assistant.Wire.{validate_hello, hex}
use transfer_assistant.Wire.Checks.{validate_hello_ok}
use transfer_assistant.Control.{new_control, checkpoint, pause_control, resume_control}
use transfer_assistant.Control.Waiting.{
  Scene, waiting, pauses, resumes, Reached, starts, turns, reads, waits, calls, Reached-waits,
}

-- The directory has `a.txt` already.
abbrev has_a : Text → Bool
has_a name = name =ₜ text "a.txt"

one_free : is_free false (λ t. t) has_a [] (candidate (text "a.txt") 1) ≡ true
unfolding suffixed_name decimal file_name rsplit_once split split_first
one_free = refl

unique_target_name_lem_example :
    FirstFree false
      (λ t. t)
      has_a
      (text "a.txt")
      []
      0
      1
      (unique_target_name false (λ t. t) has_a (text "a.txt") [])
unique_target_name_lem_example =
    unique_target_name_lem false (λ t. t) has_a (text "a.txt") [] 1 (omega arith) one_free

sanitize_target_segment_outcome_example :
    IsPlainName (sanitize_target_segment true (text "CON.txt"))
    × (sanitize_target_segment false (text "CON.txt") ≡ text "CON.txt")
sanitize_target_segment_outcome_example = sanitize_target_segment_outcome (text "CON.txt")

-- The name that is marked still has the reserved stem.
marked_still_reserved : is_reserved (sanitize_target_segment true (text "CON.txt")) ≡ true
unfolding sanitize_target_segment is_reserved split_first trim_end_matches
marked_still_reserved = refl

abbrev greeting : Hello
greeting = record {
  device_id = text "0aff";
  display_name = text "desk";
  certificate_fingerprint = 10 ∷ 255 ∷ [];
  capabilities = 0;
}

validate_hello_ok_example : (validate_hello greeting (10 ∷ 255 ∷ []) ≡ ok tt) ↔ (
    (greeting.certificate_fingerprint ≡ 10 ∷ 255 ∷ [])
    × (greeting.device_id ≡ hex (10 ∷ 255 ∷ []))
    × (is_empty (trim greeting.display_name) ≡ false))
validate_hello_ok_example = validate_hello_ok greeting (10 ∷ 255 ∷ [])

-- A task is paused, reads the switch, and is resumed before it waits: it waits although nothing
-- stops it.
abbrev lost : Scene
lost = record {
  control = resume_control (pause_control new_control);
  task = waiting;
  missed = true;
}

lost-Reached : Reached lost
unfolding checkpoint pause_control resume_control
lost-Reached =
    turns (turns (turns (turns (starts new_control) (calls pauses)) (reads refl)) (calls resumes))
      (waits refl)

lost_could_return : checkpoint (Scene.control lost) ≡ some (ok tt)
unfolding checkpoint pause_control resume_control
lost_could_return = refl

Reached-waits_example : (checkpoint (Scene.control lost) ≡ none) ⊎ (true ≡ true)
Reached-waits_example = Reached-waits lost lost-Reached refl
