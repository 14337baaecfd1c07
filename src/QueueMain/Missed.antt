-- ===== src/QueueMain/Missed.antt =====
-- The wake-up that a consumer of c/multi-thread-queue/main.c misses: it is counted before it waits.
use code_slices.Base.{ℕ, ◌<◌, ◌≡◌, ◌≢◌, Bool, true, false, arith}
use code_slices.Memory.{Ptr, Heap, Malloc}
use code_slices.QueueMain.{
  Place, Provider, Main, System, Consume, Provide, Conduct, Act, consume, provide, conduct, act,
  Reach, later, Run, stay, go,
}
use code_slices.QueueMain.Stages.{Reach-Stages}

-- The provider has made its only broadcast.
abbrev pub past_broadcast : Provider → Bool
past_broadcast Provider.polling = false
past_broadcast Provider.wanting = false
past_broadcast Provider.broadcasting = false
past_broadcast Provider.unlocking = true
past_broadcast Provider.returned = true

-- The consumer has still to be woken.
abbrev pub asleep : Place → Bool
asleep Place.unborn = true
asleep Place.at_start = true
asleep Place.counting = true
asleep Place.counted = true
asleep Place.registered = true
asleep Place.holding = true
asleep Place.waiting = true
asleep Place.woken = false
asleep Place.leaving = false
asleep Place.working = false
asleep Place.returned = false

record Missing (i : ℕ) (s : System) : Type 0 where
  late : past_broadcast s.provider ≡ true
  sleeps : asleep (s.consumers i).place ≡ true

module _ (m : Malloc) (q : Ptr) (k n : ℕ) (i : ℕ) (s : System) (inv : Missing i s) where
  open inv use {late, sleeps}

  Consume-Missing : (j : ℕ) {t : System} → Consume q j s t → Missing i t
  Consume-Missing j (Consume.lock_count e free) = ground arith
  Consume-Missing j (Consume.count_up e) = ground arith
  Consume-Missing j (Consume.unlock_count e) = ground arith
  Consume-Missing j (Consume.lock e free) = ground arith
  Consume-Missing j (Consume.wait e) = ground arith
  Consume-Missing j (Consume.relock e free) = ground arith
  Consume-Missing j (Consume.unlock e) = ground arith
  Consume-Missing j (Consume.dequeue value e run) = ground arith

  Provide-Missing : {t : System} → Provide n s t → Missing i t
  Provide-Missing (Provide.poll e less) = ground arith
  Provide-Missing (Provide.ready e enough) = ground arith
  Provide-Missing (Provide.lock e free) = ground arith
  Provide-Missing (Provide.broadcast e) = ground arith
  Provide-Missing (Provide.unlock e) = ground arith

  Conduct-Missing : {t : System} → Conduct m q k n s t → Missing i t
  Conduct-Missing (Conduct.init e run) = record { late = late; sleeps = sleeps }
  Conduct-Missing (Conduct.enqueue e lt run) = record { late = late; sleeps = sleeps }
  Conduct-Missing (Conduct.filled e le) = record { late = late; sleeps = sleeps }
  Conduct-Missing (Conduct.create e lt) = ground arith
  Conduct-Missing (Conduct.created e le) = record { late = late; sleeps = sleeps }
  Conduct-Missing (Conduct.join_provider e done) = record { late = late; sleeps = sleeps }
  Conduct-Missing (Conduct.join e lt done) = record { late = late; sleeps = sleeps }
  Conduct-Missing (Conduct.joined e le) = record { late = late; sleeps = sleeps }
  Conduct-Missing (Conduct.clean fuel e run) = record { late = late; sleeps = sleeps }

Act-Missing :
    (m : Malloc) (q : Ptr) (k n i : ℕ) (s : System)
    → Missing i s
    → {t : System} → Act m q k n s t
    → Missing i t
Act-Missing m q k n i s inv (consume j lt st) = Consume-Missing m q k n i s inv j st
Act-Missing m q k n i s inv (provide st) = Provide-Missing m q k n i s inv st
Act-Missing m q k n i s inv (conduct st) = Conduct-Missing m q k n i s inv st

Run-Missing :
    {m : Malloc} {q : Ptr} {k n : ℕ} {s t : System}
    → (i : ℕ) → Run m q k n s t
    → Missing i s
    → Missing i t
Run-Missing i stay inv = inv
Run-Missing {m} {q} {k} {n} i (go {t} r a) inv = Act-Missing m q k n i t (Run-Missing i r inv) a

Run-Reach :
    {m : Malloc} {q : Ptr} {k n : ℕ} {h : Heap} {s t : System}
    → Reach m q k n h s
    → Run m q k n s t
    → Reach m q k n h t
Run-Reach r stay = r
Run-Reach r (go run a) = later (Run-Reach r run) (act a)

-- A consumer that has not been woken when the provider has made its broadcast is never woken: as
-- long as no thread wakes without a signal it goes no further than its wait, and main never returns.
pub missed_wakeup :
    {m : Malloc} {q : Ptr} {k n : ℕ} {h : Heap} {s t : System}
    → Reach m q k n h s
    → past_broadcast s.provider ≡ true
    → (i : ℕ) → i < n
    → asleep (s.consumers i).place ≡ true
    → Run m q k n s t
    → (asleep (t.consumers i).place ≡ true) × (t.main ≢ Main.returned)
missed_wakeup {n} {t} r late i lt sleeps run =
    let inv = Run-Missing i run (record { late = late; sleeps = sleeps }) in
    let stages = Reach-Stages (Run-Reach r run) in
    (inv.sleeps, λ e. ground (arith, inv.sleeps, stages.joined i))
