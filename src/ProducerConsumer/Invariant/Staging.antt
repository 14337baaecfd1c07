-- ===== src/ProducerConsumer/Invariant/Staging.antt =====
-- Every step keeps the stages of the run in order.
use code_slices.Base.{ℕ, ◌≡◌, ◌≢◌, true, arith}
use code_slices.ProducerConsumer.{
  Producer, Consumer, System, Signal, wake_producer, wake_consumer, nobody, Produce, Consume,
  Conduct, Spurious, producer_wakes, consumer_wakes, Step, act, spurious, produce, consume, conduct,
}
use code_slices.Family.{update}
use code_slices.ProducerConsumer.Invariant.Defs.{left, main_roused, Stages}

-- A signal ends no thread, and puts none to sleep.
record Gentle (p : Producer) (c : ℕ → Consumer) (p' : Producer) (c' : ℕ → Consumer) : Type 0 where
  producer :
      (p ≡ Producer.returned → p' ≡ Producer.returned)
      × (p' ≡ Producer.returned → p ≡ Producer.returned)
  consumer :
      (i : ℕ) → (left (c' i) ≡ left (c i)) × (c' i ≡ Consumer.waiting → c i ≡ Consumer.waiting)

Signal-Gentle :
    {n : ℕ} {p p' : Producer} {c c' : ℕ → Consumer} → Signal n p c p' c' → Gentle p c p' c'
Signal-Gentle (wake_producer e) = record { producer = ground arith; consumer = λ i. ground arith }
Signal-Gentle (wake_consumer j lt e) = record {
  producer = ground arith;
  consumer = λ i. ground arith;
}
Signal-Gentle (nobody ne none_waits) = record {
  producer = ground arith;
  consumer = λ i. ground arith;
}

module _ (n : ℕ) (s : System) (inv : Stages n s) where
  open inv use {joined, spent, ended, gone, roused}

  Produce-Stages : {t : System} → Produce n s t → Stages n t
  Produce-Stages (Produce.lock e more free) = record {
    joined = ground arith;
    spent = ground arith;
    ended = ended;
    gone = gone;
    roused = roused;
  }
  Produce-Stages (Produce.finish e done) = record {
    joined = ground arith;
    spent = ground arith;
    ended = ended;
    gone = gone;
    roused = roused;
  }
  Produce-Stages (Produce.wait e full) = record {
    joined = ground arith;
    spent = ground arith;
    ended = ended;
    gone = gone;
    roused = roused;
  }
  Produce-Stages (Produce.put e space sig) =
      let g = Signal-Gentle sig in
      record {
        joined = ground (arith, g.producer);
        spent = ground (arith, g.producer);
        ended = ended;
        gone = λ i l. ground (arith, g.consumer i, gone i);
        roused = λ r i w. ground (arith, roused r i, g.consumer i);
      }
  Produce-Stages (Produce.unlock e) = record {
    joined = ground arith;
    spent = ground arith;
    ended = ended;
    gone = gone;
    roused = roused;
  }
  Produce-Stages (Produce.relock e free) = record {
    joined = ground arith;
    spent = ground arith;
    ended = ended;
    gone = gone;
    roused = roused;
  }

  -- Consumer `i` goes on to `x`, within the loop or because of `end`.
  moved :
      (i : ℕ) (x : Consumer)
      → (left x ≡ true → s.ended ≡ true)
      → (main_roused s.main ≡ true → x ≢ Consumer.waiting)
      → Stages n (record s { consumers = update s.consumers i x })
  moved i x l r = record {
    joined = joined;
    spent = spent;
    ended = ended;
    gone = λ j. ground (arith, gone j);
    roused = λ h j w. ground (arith, roused h j);
  }

  Consume-Stages : (i : ℕ) {t : System} → Consume n i s t → Stages n t
  Consume-Stages i (Consume.lock e free) =
      let m = moved i Consumer.locked (ground arith) (ground arith) in
      record {
        joined = m.joined;
        spent = m.spent;
        ended = m.ended;
        gone = m.gone;
        roused = m.roused;
      }
  Consume-Stages i (Consume.leave e over) = moved i Consumer.leaving (ground arith) (ground arith)
  Consume-Stages i (Consume.wait e go_on drained) =
      let m = moved i Consumer.waiting (ground arith) (ground arith) in
      record {
        joined = m.joined;
        spent = m.spent;
        ended = m.ended;
        gone = m.gone;
        roused = m.roused;
      }
  Consume-Stages i (Consume.take e go_on some_left sig) =
      let g = Signal-Gentle sig in
      let m = moved i Consumer.unlocking (ground arith) (ground arith) in
      record {
        joined = ground (arith, g.producer);
        spent = ground (arith, g.producer);
        ended = ended;
        gone = λ j l. ground (arith, g.consumer j, m.gone j);
        roused = λ r j w. ground (arith, m.roused r j, g.consumer j);
      }
  Consume-Stages i (Consume.unlock e) =
      let m = moved i Consumer.at_top (ground arith) (ground arith) in
      record {
        joined = m.joined;
        spent = m.spent;
        ended = m.ended;
        gone = m.gone;
        roused = m.roused;
      }
  Consume-Stages i (Consume.relock e free) =
      let m = moved i Consumer.unlocking (ground arith) (ground arith) in
      record {
        joined = m.joined;
        spent = m.spent;
        ended = m.ended;
        gone = m.gone;
        roused = m.roused;
      }
  Consume-Stages i (Consume.return e) =
      let m = moved i Consumer.returned (λ _. gone i (ground arith)) (ground arith) in
      record {
        joined = m.joined;
        spent = m.spent;
        ended = m.ended;
        gone = m.gone;
        roused = m.roused;
      }

  Conduct-Stages : {t : System} → Conduct n s t → Stages n t
  Conduct-Stages (Conduct.join_producer e f) = record {
    joined = ground arith;
    spent = spent;
    ended = ground arith;
    gone = gone;
    roused = λ r. ground arith;
  }
  Conduct-Stages (Conduct.lock e free) = record {
    joined = ground arith;
    spent = spent;
    ended = ground arith;
    gone = gone;
    roused = λ r. ground arith;
  }
  Conduct-Stages (Conduct.set_end e) = record {
    joined = ground arith;
    spent = spent;
    ended = ground arith;
    gone = ground arith;
    roused = λ r. ground arith;
  }
  Conduct-Stages (Conduct.broadcast e) = record {
    joined = ground arith;
    spent = ground arith;
    ended = ground arith;
    gone = λ i. ground (arith, gone i);
    roused = λ r i w. ground arith;
  }
  Conduct-Stages (Conduct.unlock e) = record {
    joined = ground arith;
    spent = spent;
    ended = ground arith;
    gone = gone;
    roused = λ r i. ground (arith, roused (ground arith) i);
  }
  Conduct-Stages (Conduct.join_consumers e all) = record {
    joined = ground arith;
    spent = spent;
    ended = ground arith;
    gone = gone;
    roused = λ r i. ground (arith, roused (ground arith) i);
  }

  Spurious-Stages : {t : System} → Spurious n s t → Stages n t
  Spurious-Stages (producer_wakes e) = record {
    joined = ground arith;
    spent = ground arith;
    ended = ended;
    gone = gone;
    roused = roused;
  }
  Spurious-Stages (consumer_wakes i lt e) = moved i Consumer.woken (ground arith) (ground arith)

  pub Step-Stages : {t : System} → Step n s t → Stages n t
  Step-Stages (act (produce p)) = Produce-Stages p
  Step-Stages (act (consume i lt c)) = Consume-Stages i c
  Step-Stages (act (conduct c)) = Conduct-Stages c
  Step-Stages (spurious sp) = Spurious-Stages sp
