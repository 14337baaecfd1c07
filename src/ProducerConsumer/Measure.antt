-- ===== src/ProducerConsumer/Measure.antt =====
-- A number that every step of a thread of c/producer-consumer/main.c makes smaller: what is left to
-- do for each value, and how far each thread is from the end of its round.
use code_slices.Base.{ℕ, ◌+◌, ◌*◌, ◌≤◌, ◌<◌, ◌≡◌, arith}
use code_slices.ProducerConsumer.{
  Producer, Consumer, Main, System, Signal, wake_producer, wake_consumer, nobody, Produce, Consume,
  Conduct, Act, produce, consume, conduct, rouse, rouse_producer,
}
use code_slices.Family.{update, total, total-update, total_grows}
use code_slices.ProducerConsumer.Invariant.{Inv}

abbrev pub producer_weight : Producer → ℕ
producer_weight Producer.returned = 0
producer_weight Producer.waiting = 1
producer_weight Producer.locked = 2
producer_weight Producer.at_test = 3
producer_weight Producer.unlocking = 4
producer_weight Producer.woken = 5

abbrev pub consumer_weight : Consumer → ℕ
consumer_weight Consumer.returned = 0
consumer_weight Consumer.leaving = 1
consumer_weight Consumer.waiting = 2
consumer_weight Consumer.locked = 3
consumer_weight Consumer.at_top = 4
consumer_weight Consumer.unlocking = 5
consumer_weight Consumer.woken = 6

-- The broadcast may wake `n` consumers.
abbrev pub main_weight : ℕ → Main → ℕ
main_weight n Main.returned = 0
main_weight n Main.joining_consumers = 1
main_weight n Main.unlocking = 2
main_weight n Main.broadcasting = n * 4 + 7
main_weight n Main.setting = n * 4 + 8
main_weight n Main.locking = n * 4 + 9
main_weight n Main.joining_producer = n * 4 + 10

abbrev pub measure : ℕ → System → ℕ
measure n s =
    14 * s.nums
    + 7 * s.current
    + total consumer_weight n s.consumers
    + producer_weight s.producer
    + main_weight n s.main

-- A signal wakes at most one thread.
Signal-le :
    {n : ℕ} {p p' : Producer} {c c' : ℕ → Consumer}
    → Signal n p c p' c'
    → total consumer_weight n c' + producer_weight p'
      ≤ total consumer_weight n c + producer_weight p + 4
Signal-le (wake_producer e) = ground arith
Signal-le {n} {c} (wake_consumer i lt e) =
    ground (arith, total-update consumer_weight n i c Consumer.woken lt)
Signal-le (nobody ne none_waits) = omega arith

rouse-le : (c : Consumer) → consumer_weight (rouse c) ≤ consumer_weight c + 4
rouse-le c = ground arith

rouse_producer-le : (p : Producer) → producer_weight (rouse_producer p) ≤ producer_weight p + 4
rouse_producer-le p = ground arith

module _ (n k : ℕ) (s : System) (inv : Inv n k s) where
  open inv use {counts}

  Produce-lt : {t : System} → Produce n s t → measure n t < measure n s
  Produce-lt (Produce.lock e more free) = ground arith
  Produce-lt (Produce.finish e done) = ground arith
  Produce-lt (Produce.wait e full) = ground arith
  Produce-lt (Produce.put e space sig) = ground (arith, Signal-le sig, counts.busy e)
  Produce-lt (Produce.unlock e) = ground arith
  Produce-lt (Produce.relock e free) = ground arith

  module _ (i : ℕ) (lt : i < n) where
    moved :
        (x : Consumer)
        → total consumer_weight n (update s.consumers i x) + consumer_weight (s.consumers i)
          ≡ total consumer_weight n s.consumers + consumer_weight x
    moved x = total-update consumer_weight n i s.consumers x lt

    Consume-lt : {t : System} → Consume n i s t → measure n t < measure n s
    Consume-lt (Consume.lock e free) = ground (arith, moved Consumer.locked)
    Consume-lt (Consume.leave e over) = ground (arith, moved Consumer.leaving)
    Consume-lt (Consume.wait e go_on drained) = ground (arith, moved Consumer.waiting)
    Consume-lt (Consume.take e go_on some_left sig) =
        ground (arith, moved Consumer.unlocking, Signal-le sig)
    Consume-lt (Consume.unlock e) = ground (arith, moved Consumer.at_top)
    Consume-lt (Consume.relock e free) = ground (arith, moved Consumer.unlocking)
    Consume-lt (Consume.return e) = ground (arith, moved Consumer.returned)

  Conduct-lt : {t : System} → Conduct n s t → measure n t < measure n s
  Conduct-lt (Conduct.join_producer e f) = ground arith
  Conduct-lt (Conduct.lock e free) = ground arith
  Conduct-lt (Conduct.set_end e) = ground arith
  Conduct-lt (Conduct.broadcast e) = ground (
    arith,
    total_grows consumer_weight n 4 s.consumers (λ i. rouse (s.consumers i))
        (λ i. rouse-le (s.consumers i)),
    rouse_producer-le s.producer,
  )
  Conduct-lt (Conduct.unlock e) = ground arith
  Conduct-lt (Conduct.join_consumers e all) = ground arith

  pub Act-lt : {t : System} → Act n s t → measure n t < measure n s
  Act-lt (produce p) = Produce-lt p
  Act-lt (consume i lt c) = Consume-lt i lt c
  Act-lt (conduct c) = Conduct-lt c
