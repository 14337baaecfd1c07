-- ===== src/Seeker/Tests.antt =====
-- A run of c/seeker.c, and the theorems at an input.
use code_slices.Base.{
  Option, ℕ, ◌-◌, ◌*◌, ◌^◌, ◌≤◌, ◌<◌, ◌≡◌, ◌↔◌, refl, true, some, arith, List, [], ◌∷◌,
}
use code_slices.Base.Int.{pos, negsuc}
use code_slices.Seeker.{
  exit_success, State, version, usage, Setup, seek_main, going, block_of, seek_failed, exit_failure,
  Event, round, alarm, seek_round, run,
}
use code_slices.Seeker.Blocks.{block_of-inside}
use code_slices.Seeker.Results.{Disk, AllGood, Opened}

abbrev random_max : ℕ
random_max = 2 ^ 31 - 1

block_of-inside_example :
    (block : ℕ) × (block_of random_max 1000 random_max ≡ some block)
    × (block ≤ 1000)
    × ((block < 1000) ↔ (random_max < random_max))
block_of-inside_example =
    block_of-inside random_max 1000 random_max (omega arith) (omega arith) (omega arith)
      (omega arith) (omega arith)

error_seen : seek_failed (negsuc 0) ≡ true
error_seen = refl

-- The block behind the last.
greatest : block_of random_max 1000 random_max ≡ some 1000
unfolding block_of
greatest = refl

abbrev disk : Disk random_max 1000
disk = record {
  some_max = omega arith;
  small_max = omega arith;
  some_blocks = omega arith;
  few_blocks = omega arith;
}

abbrev events : List Event
events = round 5 (pos 0) (pos 512) ∷ alarm 11 ∷ round (2 ^ 30) (pos (512 * 500)) (pos 512) ∷ []

abbrev setup : Setup
setup = record { fd = pos 3; retval = pos 0; numblocks = 1000; start = 10 }

abbrev opened : Opened 2 setup
opened = record { one_argument = refl; open_succeeds = (3, refl); ioctl_succeeds = refl }

abbrev events_good : AllGood random_max 1000 10 events
events_good = (
  (omega arith, (0, omega arith, refl), (512, refl)),
  (omega arith, ((omega arith, (500, omega arith, refl), (512, refl)), tt)),
)

-- With no device the usage is printed; a device that is not there and one whose size is not known
-- are failures.
no_device :
    seek_main random_max 1 setup []
    ≡ some (record { count = 0; printed = version ∷ usage ∷ []; status = exit_success })
unfolding seek_main
no_device = refl

abbrev failure : Option State
failure = some (record { count = 0; printed = version ∷ []; status = exit_failure })

not_there : seek_main random_max 2 (record setup { fd = negsuc 0 }) events ≡ failure
unfolding seek_main
not_there = refl

no_size : seek_main random_max 2 (record setup { retval = negsuc 0 }) events ≡ failure
unfolding seek_main
no_size = refl

-- An error of read ends the process.
read_error :
    run random_max 1000 10 (round 5 (pos 0) (negsuc 0) ∷ alarm 11 ∷ []) (going 0 [])
    ≡ some (record { count = 0; printed = []; status = exit_failure })
unfolding run seek_round block_of
read_error = refl
