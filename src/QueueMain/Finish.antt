-- ===== src/QueueMain/Finish.antt =====
-- What c/multi-thread-queue/main.c has left to do once the broadcast has reached every consumer: each
-- step leaves less.
use code_slices.Base.{ℕ, ◌+◌, ◌-◌, ◌≤◌, ◌<◌, ◌≡◌, refl, true, false, arith}
use code_slices.Family.{update, total, total-update}
use code_slices.Memory.{Ptr, Heap, Malloc}
use code_slices.QueueMain.{Place, Consumer, Provider, Main, System, Consume, Provide, Reach}
use code_slices.QueueMain.Stages.{Reach-Stages}
use code_slices.QueueMain.Missed.{asleep}
use code_slices.QueueMain.Tally.{got, in_use, Ready, in_use_working}
use code_slices.QueueMain.Accounting.{Reach-Stored, accounted}
use code_slices.QueueMain.Awake.{Roused}

-- The steps that are left to a consumer, its calls of q_dequeue but the last not counted.
abbrev left_at : Place → ℕ
left_at Place.unborn = 0
left_at Place.at_start = 0
left_at Place.counting = 0
left_at Place.counted = 0
left_at Place.registered = 0
left_at Place.holding = 0
left_at Place.waiting = 0
left_at Place.woken = 3
left_at Place.leaving = 2
left_at Place.working = 1
left_at Place.returned = 0

abbrev pub left : Consumer → ℕ
left c = left_at c.place

abbrev provider_left : Provider → ℕ
provider_left Provider.polling = 0
provider_left Provider.wanting = 0
provider_left Provider.broadcasting = 0
provider_left Provider.unlocking = 1
provider_left Provider.returned = 0

abbrev pub main_left : ℕ → Main → ℕ
main_left n Main.starting = 0
main_left n (Main.filling i) = 0
main_left n (Main.creating i) = n + 4
main_left n Main.joining_provider = n + 3
main_left n (Main.joining i) = n - i + 2
main_left n Main.cleaning = 1
main_left n Main.returned = 0

-- What is left to do: a step for each node that no consumer has taken, and those of the threads.
abbrev pub measure : ℕ → System → ℕ
measure n s =
    (s.stored - total got n s.consumers)
    + total left n s.consumers
    + provider_left s.provider
    + main_left n s.main

module _ (m : Malloc) (q : Ptr) (k n : ℕ) (h : Heap) (ready : Ready q h) (some_there : 1 ≤ n)
    (s : System) (r : Reach m q k n h s) (roused : Roused n s) where
  open roused use {late, awake}

  module _ (i : ℕ) (lt : i < n) where
    changed :
        (c : Consumer)
        → (total got n (update s.consumers i c) + got (s.consumers i)
            ≡ total got n s.consumers + got c)
          × (total left n (update s.consumers i c) + left (s.consumers i)
              ≡ total left n s.consumers + left c)
    changed c = (total-update got n i s.consumers c lt, total-update left n i s.consumers c lt)

    stays :
        (c : Consumer)
        → asleep c.place ≡ false
        → (j : ℕ) → j < n
        → asleep (update s.consumers i c j).place ≡ false
    stays c up j lj = ground (arith, awake j lj)

    in_use_at : (s.consumers i).place ≡ Place.working → in_use s.main ≡ true
    in_use_at e = in_use_working m q k n s (Reach-Stages r) (Reach-Stored ready r) i lt e

    abbrev walk : Place → Consumer
    walk p = record { place = p; count = (s.consumers i).count }

    abbrev called : Place → Consumer
    called p = record { place = p; count = (s.consumers i).count + 1 }

    pub Consume-falls :
        {t : System}
        → Reach m q k n h t
        → Consume q i s t
        → Roused n t × (measure n t < measure n s)
    Consume-falls rt (Consume.lock_count e free) = absurd (ground (arith, awake i lt))
    Consume-falls rt (Consume.count_up e) = absurd (ground (arith, awake i lt))
    Consume-falls rt (Consume.unlock_count e) = absurd (ground (arith, awake i lt))
    Consume-falls rt (Consume.lock e free) = absurd (ground (arith, awake i lt))
    Consume-falls rt (Consume.wait e) = absurd (ground (arith, awake i lt))
    Consume-falls rt (Consume.relock e free) = (
      record { late = late; awake = stays (walk Place.leaving) refl },
      ground (arith, changed (walk Place.leaving)),
    )
    Consume-falls rt (Consume.unlock e) = (
      record { late = late; awake = stays (walk Place.working) refl },
      ground (arith, changed (walk Place.working)),
    )
    Consume-falls rt (Consume.dequeue value {ret = true} e run) = (
      record { late = late; awake = stays (called Place.working) refl },
      ground (arith, changed (called Place.working), (accounted ready rt (in_use_at e)).kept),
    )
    Consume-falls rt (Consume.dequeue value {ret = false} e run) = (
      record { late = late; awake = stays (called Place.returned) refl },
      ground (arith, changed (called Place.returned)),
    )

  pub Provide-falls : {t : System} → Provide n s t → Roused n t × (measure n t < measure n s)
  Provide-falls (Provide.poll e less) = absurd (ground arith)
  Provide-falls (Provide.ready e enough) = absurd (ground arith)
  Provide-falls (Provide.lock e free) = absurd (ground arith)
  Provide-falls (Provide.broadcast e) = absurd (ground arith)
  Provide-falls (Provide.unlock e) = (record { late = refl; awake = awake }, ground arith)
