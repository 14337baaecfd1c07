-- ===== src/Seeker/Blocks.antt =====
-- The block that a round of c/seeker.c reads.
use native.Mathlib.Nat.{mul-div_cancel, div-lt_iff_lt-mul}
use code_slices.Base.{
  ℕ, zero, suc, ◌-◌, ◌*◌, ◌/◌, ◌^◌, ◌≤◌, ◌<◌, ◌≡◌, ◌↔◌, refl, dec_lt, false, some, arith, ◌==◌,
}
use code_slices.Base.Int.{pos}
use code_slices.Seeker.{block_of, fits_off, off_max, blocksize, seek_failed}

-- lseek64's error and no other result is taken for one: an offset that is a multiple of the block
-- size is not -1 when it is cut down to an `int`.
pub seek_failed-offset :
    (block : ℕ) → blocksize * block ≤ off_max → seek_failed (pos (blocksize * block)) ≡ false
seek_failed-offset block fits = ground arith

pub fits_off-some : (n : ℕ) → n ≤ off_max → fits_off n ≡ some n
fits_off-some n h = ground arith

product-less : (n x r : ℕ) → 0 < n → x < r → n * x < n * r
product-less zero x r some_n less = elim some_n [ ]
product-less (suc n) x r some_n less = grind arith

pub product_le : (n r m k : ℕ) → n ≤ m → r ≤ k → n * r ≤ m * k
product_le n r m k a b = grind arith

quotient-below : (r n x : ℕ) → 0 < n → x < r → n * x / r < n
quotient-below r n x some_n less =
    (div-lt_iff_lt-mul (omega arith)).1 (product-less n x r some_n less)

-- For a disk of at most 2 ^ 32 blocks no product overflows. The block lies on the disk, but for the
-- greatest number that random returns: then it is the one behind the last.
pub block_of-inside :
    (rand_max numblocks random : ℕ)
    → 0 < rand_max
    → rand_max < 2 ^ 31
    → 0 < numblocks
    → numblocks ≤ 2 ^ 32
    → random ≤ rand_max
    → (block : ℕ) × (block_of rand_max numblocks random ≡ some block)
      × (block ≤ numblocks)
      × ((block < numblocks) ↔ (random < rand_max))
block_of-inside rand_max numblocks random some_max small some_blocks few below =
    let bound = product_le numblocks random (2 ^ 32) (2 ^ 31 - 1) few (omega arith) in
    let divides : (rand_max == 0) ≡ false = ground arith in
    let block = numblocks * random / rand_max in
    let is_block : block_of rand_max numblocks random ≡ some block =
      unfold block_of in
      rw
        (
          fits_off-some numblocks (omega arith),
          fits_off-some (numblocks * random) (omega arith),
          divides,
        )
        refl in
    elim (dec_lt random rand_max) [
      | yes less ↦
          let inside = quotient-below rand_max numblocks random some_blocks less in
          (block, is_block, omega arith, ((λ _. less), (λ _. inside)))
      | no full ↦
          let same : random ≡ rand_max = omega arith in
          let end : block ≡ numblocks = rw same (mul-div_cancel numblocks some_max) in
          (
            block,
            is_block,
            omega arith,
            ((λ lt. absurd (omega arith)), (λ lt. absurd (omega arith))),
          )
    ]
