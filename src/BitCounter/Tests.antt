-- ===== src/BitCounter/Tests.antt =====
-- int_bit_counter of c/int-bit-counter.c at the number that its main takes, and the theorem.
use code_slices.Base.{none, ℕ, zero, suc, ◌≡◌, refl, Bool, true, false, List, [], ◌∷◌}
use code_slices.Base.Int.{pos, negsuc, to_int}
use code_slices.BitCounter.{bit_main, int_bit_counter}
use code_slices.BitCounter.Words.{value, trues, int_bit_counter-trues}

minus_one : int_bit_counter (negsuc 0) ≡ 32
unfolding int_bit_counter
minus_one = refl

-- `n` bits, the highest set.
abbrev top_bit : ℕ → List Bool
top_bit zero = []
top_bit (suc zero) = true ∷ []
top_bit (suc (suc n)) = false ∷ top_bit (suc n)

int_bit_counter-trues_example : int_bit_counter (to_int (value (top_bit 32))) ≡ trues (top_bit 32)
int_bit_counter-trues_example = int_bit_counter-trues (top_bit 32) refl

main_default : bit_main none ≡ (7, pos 61453)
unfolding bit_main int_bit_counter
main_default = refl
