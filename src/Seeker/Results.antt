-- ===== src/Seeker/Results.antt =====
-- What a run of c/seeker.c prints.
use mathlib.Core.List.{append_assoc, append-nil}
use code_slices.Base.{
  Option, ℕ, suc, ◌+◌, ◌*◌, ◌/◌, ◌^◌, ◌≤◌, ◌<◌, ◌≡◌, ◌∙◌, sym, ap, refl, false, true, some, arith,
  ◌==◌, if◌then◌else◌, List, [], ◌∷◌, ◌++◌, lt→ltb,
}
use code_slices.Base.Int.{negsuc, eqb_ℤ, ℤ, pos, ltb_ℤ, int_max, fits_nonneg-some}
use code_slices.Seeker.{
  version, benchmarking, Setup, seek_main, going, Status, exit_failure, handle, read_block,
  when_running, on_event, off_max, blocksize, timeout, seek_failed, Piece, dot, results, State,
  running, exit_success, Event, round, alarm, done, seek_round, run,
}
use code_slices.Seeker.Blocks.{block_of-inside, seek_failed-offset, fits_off-some}

-- The seeks and the seconds in a sequence of events.
abbrev pub seeks : List Event → ℕ
seeks [] = 0
seeks (round random seek read ∷ events) = suc (seeks events)
seeks (alarm now ∷ events) = seeks events

abbrev pub dots : List Event → List Piece
dots [] = []
dots (round random seek read ∷ events) = dots events
dots (alarm now ∷ events) = dot ∷ dots events

-- What main prints before the loop.
abbrev pub intro : ℕ → List Piece
intro numblocks = version ∷ benchmarking (numblocks / 2048) ∷ []

-- The program is given a device, and opens it and finds its size.
pub record Opened (argc : ℕ) (o : Setup) : Type 0 where
  pub one_argument : argc ≡ 2
  pub open_succeeds : (n : ℕ) × (o.fd ≡ pos n)
  pub ioctl_succeeds : eqb_ℤ o.retval (negsuc 0) ≡ false

pub seek_main-run :
    (rand_max argc : ℕ) (o : Setup) (events : List Event)
    → Opened argc o
    → seek_main rand_max argc o events
      ≡ run rand_max o.numblocks o.start events (going 0 (intro o.numblocks))
unfolding seek_main
seek_main-run rand_max argc o events opened =
    let fine : ltb_ℤ (pos opened.open_succeeds.0) (pos 0) ≡ false = ground arith in
    rw (opened.one_argument, opened.open_succeeds.1, fine, opened.ioctl_succeeds) refl

-- A status from which the process does not come back.
abbrev pub Over : Status → Type 0
Over running = ⊥
Over exit_success = Unit {0}
Over exit_failure = Unit {0}

stays_exited :
    (status : Status) (next : Option State) (s : State)
    → Over status
    → when_running status next s ≡ some s
stays_exited running next s over = absurd over
stays_exited exit_success next s over = refl
stays_exited exit_failure next s over = refl

-- The state after the last SIGALRM, with the results.
abbrev pub finished : List Piece → ℕ → State
finished printed count = record {
  count = count;
  printed = (if count == 0 then printed else printed ++ dot ∷ results (count / timeout) count ∷ []);
  status = exit_success;
}

-- What main relies on: a disk of at most 2 ^ 32 blocks, and the range of random.
pub record Disk (rand_max numblocks : ℕ) : Type 0 where
  pub some_max : 0 < rand_max
  pub small_max : rand_max < 2 ^ 31
  pub some_blocks : 0 < numblocks
  pub few_blocks : numblocks ≤ 2 ^ 32

module _ (rand_max numblocks start : ℕ) where
  -- A round whose lseek64 gives the offset of a block and whose read does not fail; a SIGALRM while
  -- there is time.
  abbrev pub Good : Event → Type 0
  Good (round random seek read) =
      (random ≤ rand_max)
      × ((block : ℕ) × (blocksize * block ≤ off_max) × (seek ≡ pos (blocksize * block)))
      × ((n : ℕ) × (read ≡ pos n))
  Good (alarm now) = now < start + timeout

  abbrev pub AllGood : List Event → Type 0
  AllGood [] = Unit {0}
  AllGood (e ∷ events) = Good e × AllGood events

  -- The offset of a round always fits, so that lseek64 is reached.
  pub seek_round-seeks :
      (random : ℕ) (seek read : ℤ) (s : State)
      → Disk rand_max numblocks
      → random ≤ rand_max
      → seek_round rand_max numblocks random seek read s
        ≡ (if seek_failed seek then some (handle true s) else read_block read s)
  unfolding seek_round
  seek_round-seeks random seek read s disk below =
      let (block, is_block, inside, _) =
        block_of-inside rand_max numblocks random disk.some_max disk.small_max disk.some_blocks
          disk.few_blocks below in
      let fits : blocksize * block ≤ off_max = omega (arith, disk.few_blocks) in
      rw (is_block, fits_off-some (blocksize * block) fits) refl

  -- Behind the offset of a block the round goes on to read.
  pub seek_round-reads :
      (random : ℕ) (seek read : ℤ) (s : State)
      → Disk rand_max numblocks
      → random ≤ rand_max
      → (block : ℕ) × (blocksize * block ≤ off_max) × (seek ≡ pos (blocksize * block))
      → seek_round rand_max numblocks random seek read s ≡ read_block read s
  seek_round-reads random seek read s disk below (block, inside, at) =
      let found : seek_failed seek ≡ false = ap seek_failed at ∙ seek_failed-offset block inside in
      seek_round-seeks random seek read s disk below ∙ rw found refl

  counts_up :
      (random : ℕ) (seek read : ℤ) (s : State)
      → Disk rand_max numblocks
      → Good (round random seek read)
      → s.count < int_max
      → seek_round rand_max numblocks random seek read s ≡ some (record s { count = suc s.count })
  counts_up random seek read s disk good room =
      let more : s.count + 1 ≡ suc s.count = omega arith in
      let ok : ltb_ℤ (pos good.2.0) (pos 0) ≡ false = ground arith in
      seek_round-reads random seek read s disk good.0 good.1
      ∙ rw (good.2.1, ok, more, fits_nonneg-some (suc s.count) room) refl

  -- After an exit nothing changes.
  pub run-exited :
      (events : List Event) (s : State)
      → Over s.status
      → run rand_max numblocks start events s ≡ some s
  unfolding run
  run-exited [] s over = refl
  run-exited (e ∷ events) s over =
      rw (stays_exited s.status (on_event rand_max numblocks start e s) s over)
        (run-exited events s over)

  done-early :
      (now : ℕ) (s : State)
      → now < start + timeout
      → done start now s ≡ record s { printed = s.printed ++ dot ∷ [] }
  unfolding done
  done-early now s early = rw (lt→ltb _ _ early) refl

  pub goes_on :
      (events : List Event) (count : ℕ) (printed : List Piece) (last : List Event)
      → Disk rand_max numblocks
      → AllGood events
      → count + seeks events ≤ int_max
      → run rand_max numblocks start (events ++ last) (going count printed)
        ≡ run rand_max numblocks start last (going (count + seeks events) (printed ++ dots events))
  unfolding run
  goes_on [] count printed last disk good room =
      let same : count ≡ count + 0 = omega arith in
      ap (λ c. run rand_max numblocks start last (going c printed)) same
      ∙ ap (λ p. run rand_max numblocks start last (going (count + 0) p)) (sym (append-nil printed))
  goes_on (round random seek read ∷ events) count printed last disk good room =
      let next : suc count + seeks events ≡ count + suc (seeks events) = omega arith in
      rw (counts_up random seek read (going count printed) disk good.0 (omega arith)) (
        goes_on events (suc count) printed last disk good.1 (omega arith)
        ∙ ap (λ c. run rand_max numblocks start last (going c (printed ++ dots events))) next)
  goes_on (alarm now ∷ events) count printed last disk good room =
      rw (done-early now (going count printed) good.0) (
        goes_on events count (printed ++ dot ∷ []) last disk good.1 room
        ∙ ap (λ p. run rand_max numblocks start last (going (count + seeks events) p))
            (append_assoc printed (dot ∷ []) (dots events)))

-- The events of a run that nothing stops, from main on.
pub seek_main-goes :
    (rand_max argc : ℕ) (o : Setup) (events last : List Event)
    → Opened argc o
    → Disk rand_max o.numblocks
    → AllGood rand_max o.numblocks o.start events
    → seeks events ≤ int_max
    → seek_main rand_max argc o (events ++ last)
      ≡ run rand_max o.numblocks o.start last
          (going (seeks events) (intro o.numblocks ++ dots events))
seek_main-goes rand_max argc o events last opened disk good room =
    let counted : 0 + seeks events ≡ seeks events = omega arith in
    seek_main-run rand_max argc o (events ++ last) opened
    ∙ goes_on rand_max o.numblocks o.start events 0 (intro o.numblocks) last disk good (omega arith)
    ∙ ap (λ c. run rand_max o.numblocks o.start last (going c (intro o.numblocks ++ dots events)))
        counted
