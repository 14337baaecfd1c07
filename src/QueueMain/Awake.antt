-- ===== src/QueueMain/Awake.antt =====
-- The threads of c/multi-thread-queue/main.c once the provider's broadcast has reached every
-- consumer.
use code_slices.Base.{
  ℕ, suc, ◌≤◌, ◌<◌, ◌≡◌, ◌⊎◌, inl, inr, refl, true, false, some, none, dec_lt, Option-cases, arith,
  length,
}
use code_slices.Family.{find_weight}
use code_slices.Memory.{Ptr, Heap, Malloc}
use code_slices.QueueMain.{
  Place, Consumer, Provider, Main, Holder, provider_thread, consumer_thread, System, Consume,
  Provide, Conduct, Act, consume, provide, conduct, Reach,
}
use code_slices.QueueMain.Stages.{Stages, Reach-Stages, created_upto}
use code_slices.QueueMain.Missed.{past_broadcast, asleep}
use code_slices.QueueMain.Holding.{Holding, Reach-Holding}
use code_slices.QueueMain.Tally.{Ready}
use code_slices.QueueMain.Accounting.{accounted, dequeue_returns, Ends-returns}
use code_slices.Queue.Dequeue.{q_clean-Cleaned}

-- The provider has made its broadcast, and no consumer has still to be woken.
pub record Roused (n : ℕ) (s : System) : Type 0 where
  pub late : past_broadcast s.provider ≡ true
  pub awake : (i : ℕ) → i < n → asleep (s.consumers i).place ≡ false

-- 1 for a consumer that has no wait in front of its next step.
abbrev busy_at : Place → ℕ
busy_at Place.unborn = 0
busy_at Place.at_start = 0
busy_at Place.counting = 0
busy_at Place.counted = 0
busy_at Place.registered = 0
busy_at Place.holding = 0
busy_at Place.waiting = 0
busy_at Place.woken = 0
busy_at Place.leaving = 1
busy_at Place.working = 1
busy_at Place.returned = 0

abbrev busy : Consumer → ℕ
busy c = busy_at c.place

-- 1 for a consumer that wants the mutex back.
abbrev woken_at : Place → ℕ
woken_at Place.unborn = 0
woken_at Place.at_start = 0
woken_at Place.counting = 0
woken_at Place.counted = 0
woken_at Place.registered = 0
woken_at Place.holding = 0
woken_at Place.waiting = 0
woken_at Place.woken = 1
woken_at Place.leaving = 0
woken_at Place.working = 0
woken_at Place.returned = 0

abbrev woken : Consumer → ℕ
woken c = woken_at c.place

abbrev pub CanAct : (m : Malloc) (q : Ptr) (k n : ℕ) → System → Type 0
CanAct m q k n s = (t : System) × Act m q k n s t

module _ (m : Malloc) (q : Ptr) (k n : ℕ) (h : Heap) (ready : Ready q h) (some_there : 1 ≤ n)
    (s : System) (r : Reach m q k n h s) (roused : Roused n s) where
  open roused use {late, awake}

  stages : Stages n s
  stages = Reach-Stages r

  -- Main has created all of the consumers.
  pub all_born : n ≤ created_upto n s.main
  all_born = elim (dec_lt (created_upto n s.main) n) [
    | yes few ↦
        absurd
          (ground (arith, awake (created_upto n s.main), stages.unborn (created_upto n s.main)))
    | no enough ↦ omega arith
  ]

  -- A consumer behind its wait goes on.
  busy_acts : (i : ℕ) → i < n → 0 < busy (s.consumers i) → CanAct m q k n s
  busy_acts i lt works = by_place (s.consumers i).place refl
    where
      by_place : (p : Place) → (s.consumers i).place ≡ p → CanAct m q k n s
      by_place Place.leaving e = (_, consume i lt (Consume.unlock e))
      by_place Place.working e =
          let (ret, g, run) = dequeue_returns ready r i lt e 0 in
          (_, consume i lt (Consume.dequeue 0 e run))
      by_place p e = absurd (ground arith)

  -- Nobody has the mutex who gives it back only after a wait.
  free_lock :
      s.provider ≡ Provider.returned
      → ((i : ℕ) → i < n → busy (s.consumers i) ≡ 0)
      → s.g_lock ≡ none
  free_lock gone idle = elim (Option-cases s.g_lock) [
    | inl free ↦ free
    | inr (holder, e) ↦ absurd (nobody holder e)
  ]
    where
      holding : Holding n s
      holding = Reach-Holding r

      nobody : (holder : Holder) → s.g_lock ≡ some holder → ⊥
      nobody provider_thread e = ground (arith, holding.by_provider e)
      nobody (consumer_thread i) e =
          let (lt, inside) = holding.by_consumer i e in ground (arith, awake i lt, idle i lt)

  clean_acts : s.main ≡ Main.cleaning → CanAct m q k n s
  clean_acts e =
      let old = accounted ready r (rw e refl) in
      let (_, g, run) =
        Ends-returns _
          (q_clean-Cleaned (suc (length old.nodes)) s.heap q old.nodes old.queue (omega arith)) in
      (_, conduct (Conduct.clean (suc (length old.nodes)) e run))

  -- Once all other threads have returned main goes on until it has.
  main_acts :
      s.provider ≡ Provider.returned
      → ((i : ℕ) → i < n → (s.consumers i).place ≡ Place.returned)
      → (p : Main) → s.main ≡ p
      → (s.main ≡ Main.returned) ⊎ CanAct m q k n s
  main_acts gone all Main.starting e = absurd (ground (arith, all_born))
  main_acts gone all (Main.filling i) e = absurd (ground (arith, all_born))
  main_acts gone all (Main.creating i) e =
      inr (_, conduct (Conduct.created e (ground (arith, all_born))))
  main_acts gone all Main.joining_provider e = inr (_, conduct (Conduct.join_provider e gone))
  main_acts gone all (Main.joining i) e = elim (dec_lt i n) [
    | yes lt ↦ inr (_, conduct (Conduct.join e lt (all i lt)))
    | no past ↦ inr (_, conduct (Conduct.joined e (omega arith)))
  ]
  main_acts gone all Main.cleaning e = inr (clean_acts e)
  main_acts gone all Main.returned e = inl e

  -- Where no consumer is behind its wait, one that is woken goes on, or main.
  idle_acts :
      s.provider ≡ Provider.returned
      → ((i : ℕ) → i < n → busy (s.consumers i) ≡ 0)
      → (s.main ≡ Main.returned) ⊎ CanAct m q k n s
  idle_acts gone idle = elim (find_weight woken n s.consumers) [
    | inl (i, lt, w) ↦ inr (_, consume i lt (Consume.relock (ground arith) (free_lock gone idle)))
    | inr none_woken ↦
        main_acts gone (λ i lt. ground (arith, none_woken i lt, idle i lt, awake i lt)) s.main refl
  ]

  consumers_act : s.provider ≡ Provider.returned → (s.main ≡ Main.returned) ⊎ CanAct m q k n s
  consumers_act gone = elim (find_weight busy n s.consumers) [
    | inl (i, lt, w) ↦ inr (busy_acts i lt w)
    | inr idle ↦ idle_acts gone idle
  ]

  by_provider : (p : Provider) → s.provider ≡ p → (s.main ≡ Main.returned) ⊎ CanAct m q k n s
  by_provider Provider.unlocking e = inr (_, provide (Provide.unlock e))
  by_provider Provider.returned e = consumers_act e
  by_provider p e = absurd (ground arith)

  -- Until main has returned some thread has a step.
  pub roused_acts : (s.main ≡ Main.returned) ⊎ CanAct m q k n s
  roused_acts = by_provider s.provider refl
