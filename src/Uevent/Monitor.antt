-- ===== src/Uevent/Monitor.antt =====
-- monitor_kevents of tools/uevent-view/main.c over the rounds of its loop.
use code_slices.Base.{
  ◌&&◌, ℕ, ◌≤◌, ◌<◌, ◌⊎◌, Bool, false, not, Option, none, some, List, [], ◌∷◌, ◌++◌, length,
  if◌then◌else◌,
}
use code_slices.Base.Int.{negsuc, ltb_ℤ, ℤ, pos, eqb_ℤ}
use code_slices.Uevent.{
  buf_size, Arrival, select_fails, recv_fails, not_set, received, Round, Ending, waiting, failed,
  left,
}
use code_slices.Uevent.Dump.{render}

-- The messages that a run handles: those that arrive until an error, or up to the round that finds
-- `exit_flag` set.
abbrev pub handled_from : Arrival → Bool → List (List ℕ) → List (List ℕ)
handled_from select_fails exit later = []
handled_from recv_fails exit later = []
handled_from not_set exit later = if exit then [] else later
handled_from (received message) exit later = message ∷ (if exit then [] else later)

unfoldable pub handled : List Round → List (List ℕ)
handled [] = []
handled (r ∷ rounds) = handled_from r.arrival r.exit_flag (handled rounds)

abbrev pub ending_from : ℤ → Arrival → Bool → Ending → Ending
ending_from sock select_fails exit later = failed
ending_from sock recv_fails exit later = failed
ending_from sock not_set exit later = if exit then left (not (eqb_ℤ sock (pos 0))) else later
ending_from sock (received message) exit later =
    if exit then left (not (eqb_ℤ sock (pos 0))) else later

unfoldable pub ending : ℤ → List Round → Ending
ending sock [] = waiting
ending sock (r ∷ rounds) = ending_from sock r.arrival r.exit_flag (ending sock rounds)

-- Each message rendered, with an empty line behind it.
unfoldable pub output : List (List ℕ) → List ℕ
output [] = []
output (message ∷ more) = (render message false ++ 10 ∷ 10 ∷ []) ++ output more

-- No message fills the buffer; some message does.
abbrev pub AllFit : List (List ℕ) → Type 0
AllFit [] = Unit {0}
AllFit (message ∷ more) = (length message < buf_size) × AllFit more

abbrev pub SomeFills : List (List ℕ) → Type 0
SomeFills [] = ⊥
SomeFills (message ∷ more) = (buf_size ≤ length message) ⊎ SomeFills more

-- The protocol that main asks for, and whether its socket is opened and bound.
abbrev pub wanted : ℤ → Option ℤ → ℤ
wanted kobject_uevent none = kobject_uevent
wanted kobject_uevent (some (pos proto)) = pos proto
wanted kobject_uevent (some (negsuc proto)) = kobject_uevent

abbrev pub bound_to : (socket bind : ℤ → ℤ) → ℤ → Bool
bound_to socket bind proto =
    not (ltb_ℤ (socket proto) (pos 0)) && not (ltb_ℤ (bind (socket proto)) (pos 0))
