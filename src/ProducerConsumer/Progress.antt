-- ===== src/ProducerConsumer/Progress.antt =====
-- The threads of c/producer-consumer/main.c never block one another for good.
use code_slices.Base.{
  ℕ, ◌≤◌, ◌<◌, ◌≡◌, ◌≢◌, refl, inl, inr, true, arith, some, none, ℕ_discrete, dec_lt, Bool-cases,
  Option-cases,
}
use code_slices.ProducerConsumer.{
  buffer_max, Thread, producer_thread, consumer_thread, main_thread, Producer, Consumer, Main,
  System, Signal, wake_producer, wake_consumer, nobody, Produce, Consume, Conduct, Reach, Act,
  produce, consume, conduct,
}
use code_slices.Family.{update, find_weight, total-lt}
use code_slices.ProducerConsumer.Invariant.{
  waits, Inv, Reach-Inv, producer_holds, consumer_holds, main_holds,
}

abbrev pub CanAct : ℕ → System → Type 0
CanAct n s = (t : System) × Act n s t

-- A signal always has an outcome.
Signal-exists :
    (n : ℕ) (p : Producer) (c : ℕ → Consumer)
    → (p' : Producer) × (c' : ℕ → Consumer) × Signal n p c p' c'
Signal-exists n Producer.waiting c = (_, _, wake_producer refl)
Signal-exists n p c = elim (find_weight waits n c) [
  | inl (i, lt, w) ↦ (_, _, wake_consumer i lt (ground arith))
  | inr none_waits ↦ (_, _, nobody (ground arith) λ i lt. ground (arith, none_waits i lt))
]

-- 1 for a consumer that has not returned.
abbrev unfinished : Consumer → ℕ
unfinished Consumer.returned = 0
unfinished Consumer.at_top = 1
unfinished Consumer.locked = 1
unfinished Consumer.waiting = 1
unfinished Consumer.woken = 1
unfinished Consumer.unlocking = 1
unfinished Consumer.leaving = 1

module _ (n k : ℕ) (s : System) (inv : Inv n k s) where
  open inv use {counts, locks, stages}

  consumer_inside :
      (i : ℕ) (x : Consumer) → i < n → s.consumers i ≡ x → consumer_holds x ≡ true → CanAct n s
  consumer_inside i Consumer.locked lt e h = elim (Bool-cases s.ended) [
    | inl over ↦ (_, consume i lt (Consume.leave e over))
    | inr go_on ↦ elim (ℕ_discrete s.current 0) [
      | yes drained ↦ (_, consume i lt (Consume.wait e go_on drained))
      | no some_left ↦
          let (p, c, sig) = Signal-exists n s.producer (update s.consumers i Consumer.unlocking) in
          (_, consume i lt (Consume.take e go_on some_left sig))
    ]
  ]
  consumer_inside i Consumer.unlocking lt e h = (_, consume i lt (Consume.unlock e))
  consumer_inside i Consumer.leaving lt e h = (_, consume i lt (Consume.return e))
  consumer_inside i Consumer.at_top lt e h = absurd (cc)
  consumer_inside i Consumer.waiting lt e h = absurd (cc)
  consumer_inside i Consumer.woken lt e h = absurd (cc)
  consumer_inside i Consumer.returned lt e h = absurd (cc)

  producer_inside : (p : Producer) → s.producer ≡ p → producer_holds p ≡ true → CanAct n s
  producer_inside Producer.locked e h = elim (ℕ_discrete s.current buffer_max) [
    | yes full ↦ (_, produce (Produce.wait e full))
    | no space ↦
        let (p, c, sig) = Signal-exists n Producer.unlocking s.consumers in
        (_, produce (Produce.put e space sig))
  ]
  producer_inside Producer.unlocking e h = (_, produce (Produce.unlock e))
  producer_inside Producer.at_test e h = absurd (cc)
  producer_inside Producer.waiting e h = absurd (cc)
  producer_inside Producer.woken e h = absurd (cc)
  producer_inside Producer.returned e h = absurd (cc)

  main_inside : (m : Main) → s.main ≡ m → main_holds m ≡ true → CanAct n s
  main_inside Main.setting e h = (_, conduct (Conduct.set_end e))
  main_inside Main.broadcasting e h = (_, conduct (Conduct.broadcast e))
  main_inside Main.unlocking e h = (_, conduct (Conduct.unlock e))
  main_inside Main.joining_producer e h = absurd (cc)
  main_inside Main.locking e h = absurd (cc)
  main_inside Main.joining_consumers e h = absurd (cc)
  main_inside Main.returned e h = absurd (cc)

  -- The thread that has the mutex can go on.
  holder_acts : (t : Thread) → s.lock ≡ some t → CanAct n s
  holder_acts producer_thread e = producer_inside s.producer refl (locks.inside producer_thread e)
  holder_acts (consumer_thread i) e = elim (dec_lt i n) [
    | yes lt ↦ consumer_inside i (s.consumers i) lt refl (locks.inside (consumer_thread i) e)
    | no far ↦ absurd (ground (arith, locks.inside (consumer_thread i) e, locks.absent i))
  ]
  holder_acts main_thread e = main_inside s.main refl (locks.inside main_thread e)

  -- With the mutex free, a consumer goes on unless it waits or has returned.
  consumer_outside :
      (i : ℕ) (x : Consumer)
      → i < n
      → s.consumers i ≡ x
      → s.lock ≡ none
      → x ≢ Consumer.waiting
      → x ≢ Consumer.returned
      → CanAct n s
  consumer_outside i Consumer.at_top lt e free nw nr = (_, consume i lt (Consume.lock e free))
  consumer_outside i Consumer.woken lt e free nw nr = (_, consume i lt (Consume.relock e free))
  consumer_outside i Consumer.waiting lt e free nw nr = absurd (nw refl)
  consumer_outside i Consumer.returned lt e free nw nr = absurd (nr refl)
  consumer_outside i Consumer.locked lt e free nw nr =
      absurd (ground (arith, locks.owner (consumer_thread i)))
  consumer_outside i Consumer.unlocking lt e free nw nr =
      absurd (ground (arith, locks.owner (consumer_thread i)))
  consumer_outside i Consumer.leaving lt e free nw nr =
      absurd (ground (arith, locks.owner (consumer_thread i)))

  -- While the producer waits, some consumer does not.
  consumer_awake :
      1 ≤ n
      → n ≤ 5
      → s.producer ≡ Producer.waiting
      → (i : ℕ) × (i < n) × (waits (s.consumers i) ≡ 0)
  consumer_awake some_there few w =
      total-lt waits n s.consumers (ground (arith, counts.fed few w, counts.room))

  producer_outside :
      1 ≤ n
      → n ≤ 5
      → s.lock ≡ none
      → s.main ≡ Main.joining_producer
      → (p : Producer) → s.producer ≡ p
      → CanAct n s
  producer_outside some_there few free m Producer.at_test e = elim (ℕ_discrete s.nums 0) [
    | yes done ↦ (_, produce (Produce.finish e done))
    | no more ↦ (_, produce (Produce.lock e (omega arith) free))
  ]
  producer_outside some_there few free m Producer.woken e = (_, produce (Produce.relock e free))
  producer_outside some_there few free m Producer.returned e =
      (_, conduct (Conduct.join_producer m e))
  producer_outside some_there few free m Producer.locked e =
      absurd (ground (arith, locks.owner producer_thread))
  producer_outside some_there few free m Producer.unlocking e =
      absurd (ground (arith, locks.owner producer_thread))
  producer_outside some_there few free m Producer.waiting e =
      let (i, lt, awake) = consumer_awake some_there few e in
      consumer_outside i (s.consumers i) lt refl free (ground arith)
        (ground (arith, stages.gone i, stages.ended))

  -- With the mutex free, some thread can go on until main has returned.
  free_acts :
      1 ≤ n → n ≤ 5 → s.lock ≡ none → (m : Main) → s.main ≡ m → m ≢ Main.returned → CanAct n s
  free_acts some_there few free Main.joining_producer e ne =
      producer_outside some_there few free e s.producer refl
  free_acts some_there few free Main.locking e ne = (_, conduct (Conduct.lock e free))
  free_acts some_there few free Main.joining_consumers e ne =
      elim (find_weight unfinished n s.consumers) [
        | inl (i, lt, w) ↦
            consumer_outside i (s.consumers i) lt refl free (stages.roused (ground arith) i)
              (ground arith)
        | inr all ↦ (_, conduct (Conduct.join_consumers e λ i lt. ground (arith, all i lt)))
      ]
  free_acts some_there few free Main.setting e ne = absurd (ground (arith, locks.owner main_thread))
  free_acts some_there few free Main.broadcasting e ne =
      absurd (ground (arith, locks.owner main_thread))
  free_acts some_there few free Main.unlocking e ne =
      absurd (ground (arith, locks.owner main_thread))
  free_acts some_there few free Main.returned e ne = absurd (ne refl)

-- With one to five consumers there is no deadlock: in every reachable state, until main has returned,
-- some thread has a step of its own, without counting on a spurious wake-up. The program has four.
pub no_deadlock :
    {n k : ℕ} {s : System} → 1 ≤ n → n ≤ 5 → Reach n k s → s.main ≢ Main.returned → CanAct n s
no_deadlock {n} {k} {s} some_there few r running = elim (Option-cases s.lock) [
  | inl free ↦ free_acts n k s (Reach-Inv r) some_there few free s.main refl running
  | inr (t, e) ↦ holder_acts n k s (Reach-Inv r) t e
]
