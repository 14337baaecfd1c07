-- ===== src/Seeker.antt =====
-- c/seeker.c: random reads from a disk until a time is over. The rounds of the loop and the calls of
-- the handler `done` are an explicit sequence of events. `none` is an overflow that C leaves
-- undefined, and a device of 2 ^ 63 blocks or more.
pub mod Blocks
pub mod Results
pub mod Failures
mod Tests
use code_slices.Base.{
  ℕ, ◌+◌, ◌-◌, ◌*◌, ◌/◌, ◌^◌, Bool, true, false, not, Option, none, some, List, [], ◌∷◌, ◌++◌, ltb,
  leb, ◌==◌, if◌then◌else◌, ◌>>=◌,
}
use code_slices.Base.Int.{ℤ, pos, negsuc, ltb_ℤ, eqb_ℤ, to_int, to_size, fits_nonneg}

-- BLOCKSIZE and TIMEOUT
abbrev pub blocksize : ℕ
blocksize = 512

abbrev pub timeout : ℕ
timeout = 30

abbrev pub off_max : ℕ
off_max = 2 ^ 63 - 1

-- An `off64_t` result that is not negative.
abbrev pub fits_off : ℕ → Option ℕ
fits_off n = if leb n off_max then some n else none

-- `(off64_t) numblocks * random() / RAND_MAX`
unfoldable pub block_of : (rand_max numblocks random : ℕ) → Option ℕ
block_of rand_max numblocks random = do
  blocks ← fits_off numblocks
  product ← fits_off (blocks * random)
  if rand_max == 0 then none else some (product / rand_max)

-- `retval == (off64_t) -1`, where `retval` is the `int` that the result of lseek64 is converted to.
abbrev pub seek_failed : ℤ → Bool
seek_failed result = eqb_ℤ (to_int (to_size result)) (negsuc 0)

-- What is printed: the version; the usage, or the size of the disk; a dot for each second; at the end
-- the seeks per second with their count, from which the access time is computed.
pub data Piece : Type 0 where
  version usage dot : Piece
  benchmarking : (megabytes : ℕ) → Piece
  results : (per_second count : ℕ) → Piece

pub data Status : Type 0 where
  running : Status
  exit_success exit_failure : Status

pub record State : Type 0 where
  pub count : ℕ
  pub printed : List Piece
  pub status : Status

-- A round of the loop by what random, lseek64 and read return; a SIGALRM by what time returns.
pub data Event : Type 0 where
  round : (random : ℕ) (seek read : ℤ) → Event
  alarm : (now : ℕ) → Event

-- The handler.
unfoldable pub done : (start now : ℕ) → State → State
done start now s =
    if ltb now (start + timeout) then record s { printed = s.printed ++ dot ∷ [] } else record s {
      printed =
          (if s.count == 0
            then s.printed
            else s.printed ++ dot ∷ results (s.count / timeout) s.count ∷ []);
      status = exit_success;
    }

-- `handle`
abbrev pub handle : Bool → State → State
handle error s = if error then record s { status = exit_failure } else s

-- The round behind lseek64.
abbrev pub read_block : ℤ → State → Option State
read_block read s =
    if ltb_ℤ read (pos 0)
    then some (handle true s)
    else (do more ← fits_nonneg (s.count + 1); some (record s { count = more }))

unfoldable pub seek_round : (rand_max numblocks random : ℕ) (seek read : ℤ) → State → Option State
seek_round rand_max numblocks random seek read s = do
  block ← block_of rand_max numblocks random
  offset ← fits_off (blocksize * block)
  if seek_failed seek then some (handle true s) else read_block read s

-- One event of a process that runs.
abbrev pub on_event : (rand_max numblocks start : ℕ) → Event → State → Option State
on_event rand_max numblocks start (round random seek read) s =
    seek_round rand_max numblocks random seek read s
on_event rand_max numblocks start (alarm now) s = some (done start now s)

abbrev pub when_running : Status → Option State → State → Option State
when_running running next s = next
when_running exit_success next s = some s
when_running exit_failure next s = some s

-- The loop and the handler over a sequence of events, up to an exit.
unfoldable pub run : (rand_max numblocks start : ℕ) → List Event → State → Option State
run rand_max numblocks start [] s = some s
run rand_max numblocks start (e ∷ events) s = do
  next ← when_running s.status (on_event rand_max numblocks start e s) s
  run rand_max numblocks start events next

-- A process that runs.
abbrev pub going : ℕ → List Piece → State
going count printed = record { count = count; printed = printed; status = running }

-- What open, ioctl and time return; `numblocks` is what ioctl stores.
pub record Setup : Type 0 where
  pub fd : ℤ
  pub retval : ℤ
  pub numblocks : ℕ
  pub start : ℕ

unfoldable pub seek_main : (rand_max argc : ℕ) → Setup → List Event → Option State
seek_main rand_max argc o events =
    if not (argc == 2)
    then some (record (going 0 (version ∷ usage ∷ [])) { status = exit_success })
    else if ltb_ℤ o.fd (pos 0)
    then some (handle true (going 0 (version ∷ [])))
    else if eqb_ℤ o.retval (negsuc 0)
    then some (handle true (going 0 (version ∷ [])))
    else run rand_max o.numblocks o.start events
        (going 0 (version ∷ benchmarking (o.numblocks / 2048) ∷ []))
