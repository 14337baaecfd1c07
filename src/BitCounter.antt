-- ===== src/BitCounter.antt =====
-- c/int-bit-counter.c: how many bits of an `int` are set.
pub mod Words
mod Tests
use code_slices.Base.{Option, none, some, ℕ, zero, suc, ◌+◌, ◌-◌, ◌*◌, ◌/◌, ◌%◌, ◌^◌}
use code_slices.Base.Int.{ℤ, pos, negsuc}

-- `n >> k`, which keeps the sign, as gcc defines it.
unfoldable pub shift_right : ℤ → ℕ → ℤ
shift_right (pos n) k = pos (n / 2 ^ k)
shift_right (negsuc n) k = negsuc (n / 2 ^ k)

-- `n & 0x1`
unfoldable pub low_bit : ℤ → ℕ
low_bit (pos n) = n % 2
low_bit (negsuc n) = 1 - n % 2

-- `while (len--)`
unfoldable pub count_loop : ℕ → ℤ → ℕ → ℕ
unfolding shift_right low_bit
count_loop zero n count = count
count_loop (suc len) n count = count_loop len n (count + low_bit (shift_right n len))

-- An `int` has 4 bytes.
unfoldable pub int_bit_counter : ℤ → ℕ
unfolding count_loop
int_bit_counter n = count_loop (4 * 8) n 0

-- main: `arg` is what atoi makes of its argument. The two numbers are those that it prints.
unfoldable pub bit_main : Option ℤ → ℕ × ℤ
bit_main arg =
    let n : ℤ = elim arg [ none ↦ pos 0xF00D | some given ↦ given ] in (int_bit_counter n, n)
