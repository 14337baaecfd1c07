-- ===== src/ProducerConsumer/Ending.antt =====
-- Every run of c/producer-consumer/main.c ends.
use code_slices.Base.{ℕ, ◌≤◌, ◌≡◌, inl, inr}
use code_slices.Runs.{Inevitable, Descent, Descent-Inevitable}
use code_slices.ProducerConsumer.{Main, System, Act, act, Reach, later}
use code_slices.ProducerConsumer.Invariant.{Reach-Inv}
use code_slices.ProducerConsumer.Progress.{no_deadlock}
use code_slices.ProducerConsumer.Measure.{measure, Act-lt}

Main-discrete : Discrete Main
Main-discrete = hlevel

abbrev pub HasReturned : System → Type 0
HasReturned s = s.main ≡ Main.returned

Act-Descent : (n k : ℕ) → 1 ≤ n → n ≤ 5 → Descent HasReturned (Act n) (Reach n k) (measure n)
Act-Descent n k some_there few = record {
  moves = λ s r. elim (Main-discrete s.main Main.returned) [
    | yes done ↦ inl done
    | no running ↦ inr (no_deadlock some_there few r running)
  ];
  falls = λ s t r a. (later r (act a), Act-lt n k s (Reach-Inv r) a);
}

-- With one to five consumers, and as long as no thread wakes without a signal, every schedule of the
-- threads leads to the return of main in finitely many steps, from the start and from each state
-- that can be reached.
pub main_returns :
    {n k : ℕ} {s : System} → 1 ≤ n → n ≤ 5 → Reach n k s → Inevitable HasReturned (Act n) s
main_returns {n} {k} {s} some_there few r = Descent-Inevitable (Act-Descent n k some_there few) s r
