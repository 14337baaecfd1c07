-- ===== src/ProducerConsumer/Tests.antt =====
-- Runs of c/producer-consumer/main.c, and the theorems at a state that they reach.
use code_slices.Base.{ℕ, ◌<◌, ◌+◌, ◌-◌, ◌≤◌, ◌≡◌, refl, arith, [], ◌∷◌, ◌++◌, some, length}
use code_slices.ProducerConsumer.{
  buffer_max, consumer_nums, producer_thread, Producer, Consumer, System, Signal, nobody, Produce,
  Consume, Conduct, consume, conduct, Act, produce, act, start, Reach, here, later,
}
use code_slices.Runs.{Inevitable}
use code_slices.Family.{update}
use code_slices.ProducerConsumer.Invariant.{consumed}
use code_slices.ProducerConsumer.Stack.{uses, puts, takes, serve, buffered, uses-served}
use code_slices.ProducerConsumer.Values.{taken_values, countdown, values_taken}
use mathlib.Core.List.{Perm}
use code_slices.ProducerConsumer.Safety.{mutual_exclusion}
use code_slices.ProducerConsumer.Ending.{HasReturned, main_returns}
use code_slices.ProducerConsumer.Progress.{CanAct, no_deadlock}

abbrev locked_first : (s : System) × Reach consumer_nums 2 s
locked_first = (_, later here (act (produce (Produce.lock refl (omega arith) refl))))

nobody_waits :
    Signal consumer_nums Producer.unlocking
      (start 2).consumers
      Producer.unlocking
      (start 2).consumers
nobody_waits = nobody (ground arith) (λ i lt. ground arith)

put_first : Act consumer_nums locked_first.0 (record locked_first.0 {
  buffer = update (λ _. 0) 0 2;
  current = 0 + 1;
  nums = 2 - 1;
  producer = Producer.unlocking;
})
put_first = produce (Produce.put refl (omega arith) nobody_waits)

-- The program's four consumers; the producer has locked the mutex and put its first value.
abbrev one_put : (s : System) × Reach consumer_nums 2 s
one_put = (_, later locked_first.1 (act put_first))

mutual_exclusion_example : producer_thread ≡ producer_thread
mutual_exclusion_example = mutual_exclusion one_put.1 producer_thread producer_thread refl refl

no_deadlock_example : CanAct consumer_nums one_put.0
no_deadlock_example = no_deadlock (omega arith) (omega arith) one_put.1 (ground arith)

-- One consumer and one value. The consumer first gets the mutex when `end` is set.
abbrev alone_locked : (s : System) × Reach 1 1 s
alone_locked = (_, later here (act (produce (Produce.lock refl (omega arith) refl))))

alone_put : Act 1 alone_locked.0 (record alone_locked.0 {
  buffer = update (λ _. 0) 0 1;
  current = 0 + 1;
  nums = 1 - 1;
  producer = Producer.unlocking;
})
alone_put = produce (Produce.put refl (omega arith) (nobody (ground arith) (λ i lt. ground arith)))

abbrev alone_joined : (s : System) × Reach 1 1 s
alone_joined =
    let put = later alone_locked.1 (act alone_put) in
    let unlocked = later put (act (produce (Produce.unlock refl))) in
    let finished = later unlocked (act (produce (Produce.finish refl refl))) in
    (_, later finished (act (conduct (Conduct.join_producer refl refl))))

abbrev alone_ended : (s : System) × Reach 1 1 s
alone_ended =
    let locked = later alone_joined.1 (act (conduct (Conduct.lock refl refl))) in
    let set = later locked (act (conduct (Conduct.set_end refl))) in
    let broadcast = later set (act (conduct (Conduct.broadcast refl))) in
    (_, later broadcast (act (conduct (Conduct.unlock refl))))

abbrev alone_left : (s : System) × Reach 1 1 s
alone_left =
    let locked = later alone_ended.1 (act (consume 0 (omega arith) (Consume.lock refl refl))) in
    let left = later locked (act (consume 0 (omega arith) (Consume.leave refl refl))) in
    (_, later left (act (consume 0 (omega arith) (Consume.return refl))))

alone_gone : (i : ℕ) → i < 1 → alone_left.0.consumers i ≡ Consumer.returned
alone_gone i lt = ground arith

abbrev alone_returned : (s : System) × Reach 1 1 s
alone_returned = (_, later alone_left.1 (act (conduct (Conduct.join_consumers refl alone_gone))))

-- The value is still in the buffer.
left_behind : alone_returned.0.current ≡ 1
left_behind = refl

main_returns_example : Inevitable HasReturned (Act consumer_nums) one_put.0
main_returns_example = main_returns (omega arith) (omega arith) one_put.1

abbrev TwoValues : Type 0
TwoValues = (s : System) × Reach 1 2 s

abbrev produced : (r : TwoValues) {t : System} → Produce 1 r.0 t → TwoValues
produced r p = (_, later r.1 (act (produce p)))

abbrev consumes : (r : TwoValues) {t : System} → Consume 1 0 r.0 t → TwoValues
consumes r c = (_, later r.1 (act (consume 0 (omega arith) c)))

abbrev conducted : (r : TwoValues) {t : System} → Conduct 1 r.0 t → TwoValues
conducted r c = (_, later r.1 (act (conduct c)))

-- One consumer and two values, of which it takes the first before the second is put.
first_taken : TwoValues
first_taken =
    let a = produced (_, here) (Produce.lock refl (omega arith) refl) in
    let b =
      produced a (Produce.put refl (omega arith) (nobody (ground arith) (λ i lt. ground arith))) in
    let c = produced b (Produce.unlock refl) in
    let d = consumes c (Consume.lock refl refl) in
    let e =
      consumes d
        (Consume.take refl refl (omega arith) (nobody (ground arith) (λ i lt. ground arith))) in
    consumes e (Consume.unlock refl)

-- The producer has put both and returned.
both_put : TwoValues
unfolding first_taken
both_put =
    let a = produced first_taken (Produce.lock refl (omega arith) refl) in
    let b =
      produced a (Produce.put refl (omega arith) (nobody (ground arith) (λ i lt. ground arith))) in
    let c = produced b (Produce.unlock refl) in produced c (Produce.finish refl refl)

end_set : TwoValues
unfolding both_put
end_set =
    let a = conducted both_put (Conduct.join_producer refl refl) in
    let b = conducted a (Conduct.lock refl refl) in
    let c = conducted b (Conduct.set_end refl) in
    let d = conducted c (Conduct.broadcast refl) in conducted d (Conduct.unlock refl)

all_returned : TwoValues
unfolding end_set
all_returned =
    let a = consumes end_set (Consume.lock refl refl) in
    let b = consumes a (Consume.leave refl refl) in
    let c = consumes b (Consume.return refl) in
    conducted c (Conduct.join_consumers refl (λ i lt. ground arith))

one_each : uses all_returned.1 ≡ puts 2 ∷ takes 2 ∷ puts 1 ∷ []
unfolding all_returned uses
one_each = refl

uses-served_example : serve (uses all_returned.1) [] ≡ some (buffered all_returned.0)
uses-served_example = uses-served all_returned.1

values_taken_example :
    (all_returned.0.producer ≡ Producer.returned)
    × ((i : ℕ) → i < 1 → all_returned.0.consumers i ≡ Consumer.returned)
    × Perm (buffered all_returned.0 ++ taken_values (uses all_returned.1)) (countdown 2)
    × (length (buffered all_returned.0) + consumed 1 all_returned.0 ≡ 2)
    × (length (buffered all_returned.0) ≤ buffer_max)
unfolding all_returned
values_taken_example = values_taken all_returned.1 refl
