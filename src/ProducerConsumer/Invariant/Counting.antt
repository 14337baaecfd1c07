-- ===== src/ProducerConsumer/Invariant/Counting.antt =====
-- Every step keeps the counts.
use code_slices.Base.{ℕ, ◌+◌, ◌<◌, ◌≡◌, ◌≢◌, refl, ◌⊎◌, inl, inr, arith}
use code_slices.ProducerConsumer.{
  Producer, Consumer, System, Signal, wake_producer, wake_consumer, nobody, Produce, Consume,
  Conduct, Spurious, producer_wakes, consumer_wakes, Step, act, spurious, produce, consume, conduct,
  rouse,
}
use code_slices.Family.{update, total, total-update, total-le, total-eq-zero}
use code_slices.ProducerConsumer.Invariant.Defs.{waits, waiters, Counts}

-- What a signal does to the number of consumers that wait.
abbrev Woken : ℕ → Producer → (ℕ → Consumer) → Producer → (ℕ → Consumer) → Type 0
Woken n p c p' c' =
    ((p ≡ Producer.waiting) × (p' ≡ Producer.woken) × (total waits n c' ≡ total waits n c))
    ⊎ ((p' ≡ p) × (total waits n c' + 1 ≡ total waits n c))
    ⊎ ((p' ≡ p) × (p ≢ Producer.waiting) × (total waits n c ≡ 0) × (total waits n c' ≡ 0))

waits_zero : (x : Consumer) → x ≢ Consumer.waiting → waits x ≡ 0
waits_zero x ne = ground arith

Signal-Woken :
    {n : ℕ} {p p' : Producer} {c c' : ℕ → Consumer} → Signal n p c p' c' → Woken n p c p' c'
Signal-Woken (wake_producer e) = inl (e, refl, refl)
Signal-Woken {n} {c} (wake_consumer i lt e) =
    inr (inl (refl, ground (arith, total-update waits n i c Consumer.woken lt)))
Signal-Woken {n} {c} (nobody ne none_waits) =
    let e = total-eq-zero waits n c (λ i lt. waits_zero (c i) (none_waits i lt)) in
    inr (inr (refl, ne, e, e))

module _ (n k : ℕ) (s : System) (inv : Counts n k s) where
  Produce-Counts : {t : System} → Produce n s t → Counts n k t
  Produce-Counts (Produce.lock e more free) = ground arith
  Produce-Counts (Produce.finish e done) = ground arith
  Produce-Counts (Produce.wait e full) = ground arith
  Produce-Counts (Produce.put e space sig) = ground (arith, Signal-Woken sig)
  Produce-Counts (Produce.unlock e) = ground arith
  Produce-Counts (Produce.relock e free) = ground arith

  module _ (i : ℕ) (lt : i < n) where
    -- Consumer `i` goes on to `x`.
    moved :
        (x : Consumer)
        → total waits n (update s.consumers i x) + waits (s.consumers i) ≡ waiters n s + waits x
    moved x = total-update waits n i s.consumers x lt

    Consume-Counts : {t : System} → Consume n i s t → Counts n k t
    Consume-Counts (Consume.lock e free) = ground (arith, moved Consumer.locked)
    Consume-Counts (Consume.leave e over) = ground (arith, moved Consumer.leaving)
    Consume-Counts (Consume.wait e go_on drained) = ground (
      arith,
      moved Consumer.waiting,
      total-le waits n (update s.consumers i Consumer.waiting) (λ a. ground arith),
    )
    Consume-Counts (Consume.take e go_on some_left sig) = ground (
      arith,
      moved Consumer.unlocking,
      Signal-Woken sig,
      total-update (λ m. m) n i s.score (s.score i + 1) lt,
    )
    Consume-Counts (Consume.unlock e) = ground (arith, moved Consumer.at_top)
    Consume-Counts (Consume.relock e free) = ground (arith, moved Consumer.unlocking)
    Consume-Counts (Consume.return e) = ground (arith, moved Consumer.returned)

  total-rouse : (m : ℕ) (c : ℕ → Consumer) → total waits m (λ i. rouse (c i)) ≡ 0
  total-rouse m c = total-eq-zero waits m (λ i. rouse (c i)) (λ i lt. ground arith)

  Conduct-Counts : {t : System} → Conduct n s t → Counts n k t
  Conduct-Counts (Conduct.join_producer e f) = ground arith
  Conduct-Counts (Conduct.lock e free) = ground arith
  Conduct-Counts (Conduct.set_end e) = ground arith
  Conduct-Counts (Conduct.broadcast e) = ground (arith, total-rouse n s.consumers)
  Conduct-Counts (Conduct.unlock e) = ground arith
  Conduct-Counts (Conduct.join_consumers e all) = ground arith

  Spurious-Counts : {t : System} → Spurious n s t → Counts n k t
  Spurious-Counts (producer_wakes e) = ground arith
  Spurious-Counts (consumer_wakes i lt e) =
      ground (arith, total-update waits n i s.consumers Consumer.woken lt)

  pub Step-Counts : {t : System} → Step n s t → Counts n k t
  Step-Counts (act (produce p)) = Produce-Counts p
  Step-Counts (act (consume i lt c)) = Consume-Counts i lt c
  Step-Counts (act (conduct c)) = Conduct-Counts c
  Step-Counts (spurious sp) = Spurious-Counts sp
