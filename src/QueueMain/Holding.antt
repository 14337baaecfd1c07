-- ===== src/QueueMain/Holding.antt =====
-- Who has `g_lock` in c/multi-thread-queue/main.c.
use code_slices.Base.{ℕ, ◌<◌, ◌≡◌, refl, Bool, true, false, some, arith}
use code_slices.Memory.{Ptr, Heap, Malloc}
use code_slices.QueueMain.{
  Place, Provider, provider_thread, consumer_thread, System, Consume, Provide, Conduct, consume,
  provide, conduct, Step, act, spurious, Reach, here, later,
}
use code_slices.QueueMain.Stages.{Stages, Reach-Stages}

-- Between a lock of `g_lock` and the unlock or wait that gives it back.
abbrev pub provider_holds : Provider → Bool
provider_holds Provider.polling = false
provider_holds Provider.wanting = false
provider_holds Provider.broadcasting = true
provider_holds Provider.unlocking = true
provider_holds Provider.returned = false

abbrev pub consumer_holds : Place → Bool
consumer_holds Place.unborn = false
consumer_holds Place.at_start = false
consumer_holds Place.counting = false
consumer_holds Place.counted = false
consumer_holds Place.registered = false
consumer_holds Place.holding = true
consumer_holds Place.waiting = false
consumer_holds Place.woken = false
consumer_holds Place.leaving = true
consumer_holds Place.working = false
consumer_holds Place.returned = false

pub record Holding (n : ℕ) (s : System) : Type 0 where
  pub by_provider : s.g_lock ≡ some provider_thread → provider_holds s.provider ≡ true
  pub by_consumer :
      (i : ℕ)
      → s.g_lock ≡ some (consumer_thread i)
      → (i < n) × (consumer_holds (s.consumers i).place ≡ true)

module _ (m : Malloc) (q : Ptr) (k n : ℕ) (s : System) (stages : Stages n s)
    (inv : Holding n s) where
  open inv use {by_provider, by_consumer}

  Consume-Holding : (i : ℕ) → i < n → {t : System} → Consume q i s t → Holding n t
  Consume-Holding i lt (Consume.lock_count e free) = record {
    by_provider = by_provider;
    by_consumer = λ j h. ground (arith, by_consumer j h);
  }
  Consume-Holding i lt (Consume.count_up e) = record {
    by_provider = by_provider;
    by_consumer = λ j h. ground (arith, by_consumer j h);
  }
  Consume-Holding i lt (Consume.unlock_count e) = record {
    by_provider = by_provider;
    by_consumer = λ j h. ground (arith, by_consumer j h);
  }
  Consume-Holding i lt (Consume.lock e free) = record {
    by_provider = λ h. absurd (cc);
    by_consumer = λ j h. ground arith;
  }
  Consume-Holding i lt (Consume.wait e) = record {
    by_provider = λ h. absurd (cc);
    by_consumer = λ j h. absurd (cc);
  }
  Consume-Holding i lt (Consume.relock e free) = record {
    by_provider = λ h. absurd (cc);
    by_consumer = λ j h. ground arith;
  }
  Consume-Holding i lt (Consume.unlock e) = record {
    by_provider = λ h. absurd (cc);
    by_consumer = λ j h. absurd (cc);
  }
  Consume-Holding i lt (Consume.dequeue value e run) = record {
    by_provider = by_provider;
    by_consumer = λ j h. ground (arith, by_consumer j h);
  }

  Provide-Holding : {t : System} → Provide n s t → Holding n t
  Provide-Holding (Provide.poll e less) = record {
    by_provider = λ h. ground (arith, by_provider h);
    by_consumer = by_consumer;
  }
  Provide-Holding (Provide.ready e enough) = record {
    by_provider = λ h. ground (arith, by_provider h);
    by_consumer = by_consumer;
  }
  Provide-Holding (Provide.lock e free) = record {
    by_provider = λ h. refl;
    by_consumer = λ j h. absurd (cc);
  }
  Provide-Holding (Provide.broadcast e) = record {
    by_provider = λ h. refl;
    by_consumer = λ j h. ground (arith, by_consumer j h);
  }
  Provide-Holding (Provide.unlock e) = record {
    by_provider = λ h. absurd (cc);
    by_consumer = λ j h. absurd (cc);
  }

  -- A step that leaves the mutex alone, and the threads that may have it.
  beside :
      (t : System)
      → t.g_lock ≡ s.g_lock
      → t.provider ≡ s.provider
      → t.consumers ≡ s.consumers
      → Holding n t
  beside t el ep ec = record {
    by_provider = rw (el, ep) by_provider;
    by_consumer = rw (el, ec) by_consumer;
  }

  Conduct-Holding : {t : System} → Conduct m q k n s t → Holding n t
  Conduct-Holding {t} (Conduct.init e run) = beside t refl refl refl
  Conduct-Holding {t} (Conduct.enqueue e lt run) = beside t refl refl refl
  Conduct-Holding {t} (Conduct.filled e le) = beside t refl refl refl
  Conduct-Holding (Conduct.create {i} e lt) = record {
    by_provider = by_provider;
    by_consumer = λ j h. ground (arith, by_consumer j h, stages.unborn i);
  }
  Conduct-Holding {t} (Conduct.created e le) = beside t refl refl refl
  Conduct-Holding {t} (Conduct.join_provider e done) = beside t refl refl refl
  Conduct-Holding {t} (Conduct.join e lt done) = beside t refl refl refl
  Conduct-Holding {t} (Conduct.joined e le) = beside t refl refl refl
  Conduct-Holding {t} (Conduct.clean fuel e run) = beside t refl refl refl

  Step-Holding : {t : System} → Step m q k n s t → Holding n t
  Step-Holding (act (consume i lt c)) = Consume-Holding i lt c
  Step-Holding (act (provide p)) = Provide-Holding p
  Step-Holding (act (conduct c)) = Conduct-Holding c
  Step-Holding (spurious i lt e) = record {
    by_provider = by_provider;
    by_consumer = λ j h. ground (arith, by_consumer j h);
  }

-- In every reachable state the thread that has `g_lock` is one that took it and has not given it
-- back.
pub Reach-Holding :
    {m : Malloc} {q : Ptr} {k n : ℕ} {h : Heap} {s : System} → Reach m q k n h s → Holding n s
Reach-Holding here = record { by_provider = λ h. absurd (cc); by_consumer = λ i h. absurd (cc) }
Reach-Holding {m} {q} {k} {n} (later {s} r st) =
    Step-Holding m q k n s (Reach-Stages r) (Reach-Holding r) st
