-- ===== src/ProducerConsumer/Invariant/Locking.antt =====
-- Every step keeps the mutex with one thread: the one that stands inside.
use code_slices.Base.{ℕ, ◌≤◌, ◌<◌, ◌≡◌, refl, true, false, arith, some, none, sym, ◌∙◌}
use code_slices.ProducerConsumer.{
  Thread, producer_thread, consumer_thread, main_thread, Producer, Consumer, System, Signal,
  wake_producer, wake_consumer, nobody, Produce, Consume, Conduct, Spurious, producer_wakes,
  consumer_wakes, Step, act, spurious, produce, consume, conduct,
}
use code_slices.Family.{update}
use code_slices.ProducerConsumer.Invariant.Defs.{
  producer_holds, consumer_holds, main_holds, holds, Locks,
}

-- A signal moves no thread into or out of the mutex, and none that is not there.
record SameHolders (n : ℕ) (p : Producer) (c : ℕ → Consumer) (p' : Producer) (c' : ℕ → Consumer)
    : Type 0 where
  for_producer : producer_holds p' ≡ producer_holds p
  for_consumer : (i : ℕ) → consumer_holds (c' i) ≡ consumer_holds (c i)
  beyond : (i : ℕ) → n ≤ i → c' i ≡ c i

Signal-SameHolders :
    {n : ℕ} {p p' : Producer} {c c' : ℕ → Consumer} → Signal n p c p' c' → SameHolders n p c p' c'
Signal-SameHolders (wake_producer e) = record {
  for_producer = ground arith;
  for_consumer = λ i. refl;
  beyond = λ i far. refl;
}
Signal-SameHolders (wake_consumer j lt e) = record {
  for_producer = refl;
  for_consumer = λ i. ground arith;
  beyond = λ i far. ground arith;
}
Signal-SameHolders (nobody ne none_waits) = record {
  for_producer = refl;
  for_consumer = λ i. refl;
  beyond = λ i far. refl;
}

-- The same mutex, with every thread inside or outside as before.
Locks-same :
    (n : ℕ) (s t : System)
    → Locks n s
    → t.lock ≡ s.lock
    → producer_holds t.producer ≡ producer_holds s.producer
    → ((i : ℕ) → consumer_holds (t.consumers i) ≡ consumer_holds (s.consumers i))
    → main_holds t.main ≡ main_holds s.main
    → ((i : ℕ) → n ≤ i → t.consumers i ≡ s.consumers i)
    → Locks n t
Locks-same n s t inv lock p c m beyond = record {
  owner = λ x h. lock ∙ inv.owner x (sym (same x) ∙ h);
  inside = λ x h. same x ∙ inv.inside x (sym lock ∙ h);
  absent = λ i far. beyond i far ∙ inv.absent i far;
}
  where
    same : (x : Thread) → holds t x ≡ holds s x
    same producer_thread = p
    same (consumer_thread i) = c i
    same main_thread = m

module _ (n : ℕ) (s : System) (inv : Locks n s) where
  open inv use {owner, inside, absent}

  Produce-Locks : {t : System} → Produce n s t → Locks n t
  Produce-Locks (Produce.put e space sig) =
      let same = Signal-SameHolders sig in
      Locks-same n s _ inv refl (ground (arith, same.for_producer)) same.for_consumer refl
        same.beyond
  Produce-Locks (Produce.finish e done) =
      Locks-same n s _ inv refl (ground arith) (λ i. refl) refl (λ i far. refl)
  Produce-Locks (Produce.lock e more free) = record {
    owner = λ t. ground (arith, owner t);
    inside = λ t. ground (arith, inside t);
    absent = absent;
  }
  Produce-Locks (Produce.wait e full) = record {
    owner = λ t. ground (arith, owner t, owner producer_thread);
    inside = λ t. ground (arith, inside t, owner producer_thread);
    absent = absent;
  }
  Produce-Locks (Produce.unlock e) = record {
    owner = λ t. ground (arith, owner t, owner producer_thread);
    inside = λ t. ground (arith, inside t, owner producer_thread);
    absent = absent;
  }
  Produce-Locks (Produce.relock e free) = record {
    owner = λ t. ground (arith, owner t);
    inside = λ t. ground (arith, inside t);
    absent = absent;
  }

  module _ (i : ℕ) (lt : i < n) where
    -- Consumer `i` takes the mutex, or gives it back.
    taken :
        (x : Consumer)
        → s.lock ≡ none
        → consumer_holds x ≡ true
        → Locks n (record s { lock = some (consumer_thread i); consumers = update s.consumers i x })
    taken x free h = record {
      owner = λ t. ground (arith, owner t);
      inside = λ t. ground (arith, inside t);
      absent = λ j far. ground (arith, absent j);
    }

    given_back :
        (x : Consumer)
        → consumer_holds (s.consumers i) ≡ true
        → consumer_holds x ≡ false
        → Locks n (record s { lock = none; consumers = update s.consumers i x })
    given_back x held h = record {
      owner = λ t. ground (arith, owner t, owner (consumer_thread i));
      inside = λ t. ground (arith, inside t, owner (consumer_thread i));
      absent = λ j far. ground (arith, absent j);
    }

    Consume-Locks : {t : System} → Consume n i s t → Locks n t
    Consume-Locks (Consume.lock e free) = taken Consumer.locked free refl
    Consume-Locks (Consume.leave e over) =
        Locks-same n s _ inv refl refl (λ j. ground arith) refl (λ j far. ground arith)
    Consume-Locks (Consume.wait e go_on drained) = given_back Consumer.waiting (ground arith) refl
    Consume-Locks (Consume.take e go_on some_left sig) =
        let same = Signal-SameHolders sig in
        Locks-same n s _ inv refl same.for_producer (λ j. ground (arith, same.for_consumer j)) refl
          (λ j far. ground (arith, same.beyond j))
    Consume-Locks (Consume.unlock e) = given_back Consumer.at_top (ground arith) refl
    Consume-Locks (Consume.relock e free) = taken Consumer.unlocking free refl
    Consume-Locks (Consume.return e) = given_back Consumer.returned (ground arith) refl

  Conduct-Locks : {t : System} → Conduct n s t → Locks n t
  Conduct-Locks (Conduct.join_producer e f) =
      Locks-same n s _ inv refl refl (λ i. refl) (ground arith) (λ i far. refl)
  Conduct-Locks (Conduct.lock e free) = record {
    owner = λ t. ground (arith, owner t);
    inside = λ t. ground (arith, inside t);
    absent = absent;
  }
  Conduct-Locks (Conduct.set_end e) =
      Locks-same n s _ inv refl refl (λ i. refl) (ground arith) (λ i far. refl)
  Conduct-Locks (Conduct.broadcast e) =
      Locks-same n s _ inv refl (ground arith) (λ i. ground arith) (ground arith)
        (λ i far. ground (arith, absent i))
  Conduct-Locks (Conduct.unlock e) = record {
    owner = λ t. ground (arith, owner t, owner main_thread);
    inside = λ t. ground (arith, inside t, owner main_thread);
    absent = absent;
  }
  Conduct-Locks (Conduct.join_consumers e all) =
      Locks-same n s _ inv refl refl (λ i. refl) (ground arith) (λ i far. refl)

  Spurious-Locks : {t : System} → Spurious n s t → Locks n t
  Spurious-Locks (producer_wakes e) =
      Locks-same n s _ inv refl (ground arith) (λ i. refl) refl (λ i far. refl)
  Spurious-Locks (consumer_wakes i lt e) =
      Locks-same n s _ inv refl refl (λ j. ground arith) refl (λ j far. ground arith)

  pub Step-Locks : {t : System} → Step n s t → Locks n t
  Step-Locks (act (produce p)) = Produce-Locks p
  Step-Locks (act (consume i lt c)) = Consume-Locks i lt c
  Step-Locks (act (conduct c)) = Conduct-Locks c
  Step-Locks (spurious sp) = Spurious-Locks sp
