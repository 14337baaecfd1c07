-- ===== src/Uevent.antt =====
-- tools/uevent-view/main.c: kernel messages received on a netlink socket and written with line breaks.
-- What the system calls return is an argument; `none` is an access outside a buffer.
pub mod Dump
pub mod Fields
pub mod Monitor
mod Tests
use code_slices.Base.{
  ℕ, zero, suc, ◌*◌, ◌-◌, ◌+◌, Bool, true, false, ◌&&◌, ◌||◌, not, Option, none, some, List, [],
  ◌∷◌, ◌++◌, ltb, leb, ◌==◌, if◌then◌else◌, ◌>>=◌, codes, length,
}
use code_slices.Base.Int.{ℤ, pos, negsuc, pos_part, ltb_ℤ, eqb_ℤ}

abbrev pub is_capital : ℕ → Bool
is_capital c = leb b'A' c && leb c b'Z'

abbrev pub is_mark : ℕ → Bool
is_mark c = (c == b'=') || (c == b'@')

abbrev pub is_plain : ℕ → Bool
is_plain c = (leb b'a' c && leb c b'z') || (leb b'0' c && leb c b'9')

-- What one round of the loop of dump_event writes, where `cap` says that a capital came last.
abbrev pub written : ℕ → Bool → List ℕ
written c cap =
    if is_capital c
    then (if cap then c ∷ [] else 10 ∷ b' ' ∷ b' ' ∷ c ∷ [])
    else (if is_mark c then b' ' ∷ c ∷ b' ' ∷ [] else c ∷ [])

abbrev pub next_cap : ℕ → Bool → Bool
next_cap c cap =
    if is_capital c then true else (if is_mark c then cap else (if is_plain c then false else cap))

-- The loop, with the rounds that are left.
unfoldable pub dump_loop : List ℕ → ℕ → Bool → Option (List ℕ)
dump_loop buf zero cap = some []
dump_loop [] (suc len) cap = none
dump_loop (c ∷ buf) (suc len) cap = do
  rest ← dump_loop buf len (next_cap c cap)
  some (written c cap ++ rest)

-- `fd` is false for a null pointer.
unfoldable pub dump_event : List ℕ → ℤ → Bool → Option (List ℕ)
unfolding dump_loop
dump_event buf len false = some []
dump_event buf len true = do out ← dump_loop buf (pos_part len) false; some (out ++ 10 ∷ 10 ∷ [])

-- BUF_SIZE
abbrev pub buf_size : ℕ
buf_size = 16 * 1024

-- open_uevent_sock: `sock` and `bound` are what socket and bind return. The results are
-- `socks->uevent_sock` and the return value.
unfoldable pub open_uevent_sock : ℤ → ℤ → ℤ × ℤ
open_uevent_sock sock bound =
    if ltb_ℤ sock (pos 0)
    then (sock, negsuc 0)
    else (if ltb_ℤ bound (pos 0) then (sock, negsuc 0) else (sock, pos 0))

-- What select, FD_ISSET and recv give in a round of the loop of monitor_kevents.
pub data Arrival : Type 0 where
  select_fails recv_fails not_set : Arrival
  received : List ℕ → Arrival

-- `exit_flag` as the round's end finds it: sig_hander sets it at any time.
pub record Round : Type 0 where
  pub arrival : Arrival
  pub exit_flag : Bool

-- How a run stands: it waits in select; it has returned on an error; it has left its loop, with the
-- socket closed or not.
pub data Ending : Type 0 where
  waiting failed : Ending
  left : (closed : Bool) → Ending

-- The message of a round: `uevent_buf[cnt] = '\0'` lies outside the buffer if recv has filled it.
unfoldable pub handle : List ℕ → Bool → Option (List ℕ)
handle message fp =
    if ltb (length message) buf_size
    then dump_event (message ++ 0 ∷ []) (pos (length message)) fp
    else none

-- What follows the handling of a round.
abbrev pub onward : ℤ → Bool → Option (List ℕ × Ending) → Option (List ℕ × Ending)
onward sock exit rest = if exit then some ([], left (not (eqb_ℤ sock (pos 0)))) else rest

abbrev pub written_first : List ℕ → List ℕ × Ending → Option (List ℕ × Ending)
written_first out (more, ending) = some (out ++ more, ending)

-- The `while (1)` of monitor_kevents. `rest` is what the later rounds do.
abbrev pub round_of :
    ℤ → Bool → Arrival → Bool → Option (List ℕ × Ending) → Option (List ℕ × Ending)
round_of sock fp select_fails exit rest = some ([], failed)
round_of sock fp recv_fails exit rest = some ([], failed)
round_of sock fp not_set exit rest = onward sock exit rest
round_of sock fp (received message) exit rest = do
  out ← handle message fp
  later ← onward sock exit rest
  written_first out later

unfoldable pub monitor_loop : ℤ → Bool → List Round → Option (List ℕ × Ending)
unfolding handle
monitor_loop sock fp [] = some ([], waiting)
monitor_loop sock fp (r ∷ rounds) =
    round_of sock fp r.arrival r.exit_flag (monitor_loop sock fp rounds)

unfoldable pub monitor_kevents : ℤ → ℤ → Bool → List Round → Option (List ℕ × Ending)
unfolding open_uevent_sock monitor_loop
monitor_kevents sock bound fp rounds =
    let (uevent_sock, ret) = open_uevent_sock sock bound in
    if ltb_ℤ ret (pos 0) then some ([], failed) else monitor_loop uevent_sock fp rounds

-- The protocol that main monitors: `arg` is its argument as a number, `kobject_uevent` the default.
unfoldable pub netlink_proto : ℤ → Option ℤ → ℤ
netlink_proto kobject_uevent none = kobject_uevent
netlink_proto kobject_uevent (some arg) = if ltb_ℤ arg (pos 0) then kobject_uevent else arg

-- main: `arg` is what atoi makes of its argument, `socket` and `bind` what these calls return for a
-- protocol and for a socket.
unfoldable pub uevent_main :
    ℤ → Option ℤ → (socket bind : ℤ → ℤ) → List Round → Option (List ℕ × Ending)
uevent_main kobject_uevent arg socket bind rounds =
    let sock = socket (netlink_proto kobject_uevent arg) in
    monitor_kevents sock (bind sock) true rounds
