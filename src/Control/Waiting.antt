-- ===== src/Control/Waiting.antt =====
-- A task in `checkpoint` and the calls of other threads, in any order. `notify_waiters` reaches a task
-- only once its `notified()` exists, which is created after the switch was read.
use transfer_assistant.Prelude.{
  ◌≡◌, refl, Bool, true, false, Option, none, some, Result, err, Text, if◌then◌else◌, arith, ◌⊎◌,
  inl, inr, Bool-cases,
}
use transfer_assistant.Wire.{LanError, stopped}
use transfer_assistant.Control.{
  JobControl, pause_control, resume_control, cancel_control, pause_control_from_remote,
  resume_control_from_remote, cancel_control_from_remote, checkpoint,
}

-- Where the task is: before it reads the switch, between reading and waiting, waiting, or returned.
pub data TaskPoint : Type 0 where
  reading about_to_wait waiting : TaskPoint
  returned : Result LanError (Unit {0}) → TaskPoint

pub data ControlCall : Type 0 where
  pauses resumes cancels pauses_remotely resumes_remotely : ControlCall
  cancels_remotely : Text → ControlCall

abbrev pub call : ControlCall → JobControl → JobControl
call pauses c = pause_control c
call resumes c = resume_control c
call cancels c = cancel_control c
call pauses_remotely c = pause_control_from_remote c
call resumes_remotely c = resume_control_from_remote c
call (cancels_remotely reason) c = cancel_control_from_remote reason c

-- The calls that end by `notify_waiters`.
abbrev pub notifies : ControlCall → Bool
notifies pauses = false
notifies pauses_remotely = false
notifies _ = true

-- The switch, the task, and whether a notification came between its reading and its waiting.
pub record Scene : Type 0 where
  pub control : JobControl
  pub task : TaskPoint
  pub missed : Bool

-- What a notification does to the task, and whether it is missed.
abbrev pub notified_task : TaskPoint → TaskPoint
notified_task waiting = reading
notified_task t = t

abbrev pub is_missed : TaskPoint → Bool → Bool
is_missed about_to_wait missed = true
is_missed t missed = missed

abbrev pub after_reading : Option (Result LanError (Unit {0})) → TaskPoint
after_reading none = about_to_wait
after_reading (some result) = returned result

pub data Turn : Scene → Scene → Type 0 where
  reads :
      {s : Scene}
      → s.task ≡ reading
      → Turn s (record s { task = after_reading (checkpoint s.control); missed = false })
  waits : {s : Scene} → s.task ≡ about_to_wait → Turn s (record s { task = waiting })
  stops : {s : Scene} → s.task ≡ waiting → Turn s (record s { task = returned (err stopped) })
  calls :
      {s : Scene} (c : ControlCall)
      → Turn s (record {
        control = call c s.control;
        task = if notifies c then notified_task s.task else s.task;
        missed = if notifies c then is_missed s.task s.missed else s.missed;
      })

pub data Reached : Scene → Type 0 where
  starts : (c : JobControl) → Reached (record { control = c; task = reading; missed = false })
  turns : {s t : Scene} → Reached s → Turn s t → Reached t

-- A task that waits or is about to has a reason, or missed a notification.
abbrev HasReason : Scene → Type 0
HasReason s =
    ((s.task ≡ waiting) ⊎ (s.task ≡ about_to_wait))
    → (checkpoint s.control ≡ none) ⊎ (s.missed ≡ true)

still_paused :
    (c : JobControl) (a : ControlCall)
    → notifies a ≡ false
    → checkpoint c ≡ none
    → checkpoint (call a c) ≡ none
unfolding checkpoint pause_control pause_control_from_remote
still_paused c pauses quiet h = ground arith
still_paused c pauses_remotely quiet h = ground arith
still_paused c resumes quiet h = cc
still_paused c cancels quiet h = cc
still_paused c resumes_remotely quiet h = cc
still_paused c (cancels_remotely reason) quiet h = cc

missed_or_woken :
    (t : TaskPoint) (m : Bool)
    → (notified_task t ≡ waiting) ⊎ (notified_task t ≡ about_to_wait)
    → is_missed t m ≡ true
missed_or_woken reading m (inl h) = cc
missed_or_woken reading m (inr h) = cc
missed_or_woken about_to_wait m h = refl
missed_or_woken waiting m (inl h) = cc
missed_or_woken waiting m (inr h) = cc
missed_or_woken (returned result) m (inl h) = cc
missed_or_woken (returned result) m (inr h) = cc

Turn-HasReason : {s t : Scene} → Turn s t → HasReason s → HasReason t
Turn-HasReason {s} (reads here) v = read_point (checkpoint s.control) refl
  where
    read_point :
        (r : Option (Result LanError (Unit {0})))
        → checkpoint s.control ≡ r
        → ((after_reading r ≡ waiting) ⊎ (after_reading r ≡ about_to_wait))
        → (checkpoint s.control ≡ none) ⊎ (false ≡ true)
    read_point none e h = inl e
    read_point (some result) e (inl h) = cc
    read_point (some result) e (inr h) = cc
Turn-HasReason (waits here) v = λ h. v (inr here)
Turn-HasReason (stops here) v = λ h. elim h [ inl e ↦ cc | inr e ↦ cc ]
Turn-HasReason (calls {s} c) v = elim (Bool-cases (notifies c)) [
  | inr quiet ↦
      rw quiet (λ h. elim (v h) [ inl e ↦ inl (still_paused s.control c quiet e) | inr m ↦ inr m ])
  | inl loud ↦ rw loud (λ h. inr (missed_or_woken s.task s.missed h))
]

-- In every interleaving, a task that waits although `checkpoint` could return missed a notification
-- that came between its reading of the switch and its waiting: there is no other way to hang.
pub Reached-waits :
    (s : Scene) → Reached s → s.task ≡ waiting → (checkpoint s.control ≡ none) ⊎ (s.missed ≡ true)
Reached-waits s r h = reason r (inl h)
  where
    reason : {s : Scene} → Reached s → HasReason s
    reason (starts c) = λ h. elim h [ inl e ↦ cc | inr e ↦ cc ]
    reason (turns before turn) = Turn-HasReason turn (reason before)
