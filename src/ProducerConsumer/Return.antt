-- ===== src/ProducerConsumer/Return.antt =====
-- What is left when main of c/producer-consumer/main.c returns.
use code_slices.Base.{ℕ, ◌+◌, ◌≤◌, ◌<◌, ◌≡◌, ◌≢◌, refl, arith, ◌∙◌, sym}
use code_slices.ProducerConsumer.{
  buffer_max, Producer, Consumer, Main, System, Produce, Consume, Conduct, producer_wakes,
  consumer_wakes, produce, consume, conduct, Step, act, spurious, Reach, here, later,
}
use code_slices.ProducerConsumer.Invariant.{consumed, Stages, Reach-Inv}

abbrev Finished : ℕ → System → Type 0
Finished n s = s.main ≡ Main.returned → (i : ℕ) → i < n → s.consumers i ≡ Consumer.returned

-- The other threads leave main where it is, and a thread that has returned takes no step.
Produce-live :
    {n : ℕ} {s t : System} → Produce n s t → (t.main ≡ s.main) × (s.producer ≢ Producer.returned)
Produce-live (Produce.lock e a b) = (refl, ground arith)
Produce-live (Produce.finish e a) = (refl, ground arith)
Produce-live (Produce.wait e a) = (refl, ground arith)
Produce-live (Produce.put e a b) = (refl, ground arith)
Produce-live (Produce.unlock e) = (refl, ground arith)
Produce-live (Produce.relock e a) = (refl, ground arith)

Consume-live :
    {n i : ℕ} {s t : System}
    → Consume n i s t
    → (t.main ≡ s.main) × (s.consumers i ≢ Consumer.returned)
Consume-live (Consume.lock e a) = (refl, ground arith)
Consume-live (Consume.leave e a) = (refl, ground arith)
Consume-live (Consume.wait e a b) = (refl, ground arith)
Consume-live (Consume.take e a b c) = (refl, ground arith)
Consume-live (Consume.unlock e) = (refl, ground arith)
Consume-live (Consume.relock e a) = (refl, ground arith)
Consume-live (Consume.return e) = (refl, ground arith)

Conduct-Finished : {n : ℕ} {s t : System} → Conduct n s t → Finished n t
Conduct-Finished (Conduct.join_producer e a) r = ground arith
Conduct-Finished (Conduct.lock e a) r = ground arith
Conduct-Finished (Conduct.set_end e) r = ground arith
Conduct-Finished (Conduct.broadcast e) r = ground arith
Conduct-Finished (Conduct.unlock e) r = ground arith
Conduct-Finished (Conduct.join_consumers e all) r = all

Step-Finished : {n : ℕ} {s t : System} → Stages n s → Finished n s → Step n s t → Finished n t
Step-Finished stages done (act (produce p)) r =
    let live = Produce-live p in ground (arith, live.0, live.1, stages.joined)
Step-Finished stages done (act (consume i lt c)) r =
    let live = Consume-live c in absurd (live.1 (done (sym live.0 ∙ r) i lt))
Step-Finished stages done (act (conduct c)) r = Conduct-Finished c r
Step-Finished stages done (spurious (producer_wakes e)) r = ground (arith, stages.joined)
Step-Finished stages done (spurious (consumer_wakes i lt e)) r =
    let at_end = done r i lt in ground arith

Reach-Finished : {n k : ℕ} {s : System} → Reach n k s → Finished n s
Reach-Finished here r = ground arith
Reach-Finished (later reach st) r =
    Step-Finished (Reach-Inv reach).stages (Reach-Finished reach) st r

-- When main has returned the other threads have too. The producer has put all of its values, and the
-- consumers have taken these but for what is still in the buffer, at most BUFFER_MAX of them.
pub values_at_return :
    {n k : ℕ} {s : System}
    → Reach n k s
    → s.main ≡ Main.returned
    → (s.producer ≡ Producer.returned)
      × ((i : ℕ) → i < n → s.consumers i ≡ Consumer.returned)
      × (s.current + consumed n s ≡ k)
      × (s.current ≤ buffer_max)
values_at_return reach r =
    let inv = Reach-Inv reach in
    let over : _ ≡ Producer.returned = inv.stages.joined (ground arith) in
    (
      over,
      Reach-Finished reach r,
      omega (arith, inv.counts.kept, inv.stages.spent over),
      inv.counts.bounded,
    )
