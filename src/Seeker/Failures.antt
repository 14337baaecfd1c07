-- ===== src/Seeker/Failures.antt =====
-- How a failing call ends c/seeker.c.
use code_slices.Base.{ℕ, ◌*◌, ◌≤◌, ◌≡◌, ◌⊎◌}
use code_slices.Base.Int.{pos, negsuc}
use code_slices.Seeker.{off_max, blocksize, Event, round, alarm}

module _ (rand_max numblocks start : ℕ) where
  -- A round whose lseek64 fails, or whose read fails behind an lseek64 that did not.
  abbrev pub Fails : Event → Type 0
  Fails (round random seek read) =
      (random ≤ rand_max)
      × ((seek ≡ negsuc 0)
          ⊎ (((block : ℕ) × (blocksize * block ≤ off_max) × (seek ≡ pos (blocksize * block)))
              × ((n : ℕ) × (read ≡ negsuc n))))
  Fails (alarm now) = ⊥
