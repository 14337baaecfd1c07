-- ===== src/ProducerConsumer/Invariant/Defs.antt =====
-- The invariant of the threads of c/producer-consumer/main.c, in three parts.
use code_slices.Base.{ℕ, ◌+◌, ◌≤◌, ◌<◌, ◌≡◌, ◌≢◌, Bool, true, false, some}
use code_slices.ProducerConsumer.{
  buffer_max, Thread, producer_thread, consumer_thread, main_thread, Producer, Consumer, Main,
  System,
}
use code_slices.Family.{total}

-- 1 for a consumer that waits on the condition variable.
abbrev pub waits : Consumer → ℕ
waits Consumer.waiting = 1
waits Consumer.at_top = 0
waits Consumer.locked = 0
waits Consumer.woken = 0
waits Consumer.unlocking = 0
waits Consumer.leaving = 0
waits Consumer.returned = 0

abbrev pub waiters : ℕ → System → ℕ
waiters n s = total waits n s.consumers

abbrev pub consumed : ℕ → System → ℕ
consumed n s = total (λ m. m) n s.score

-- `n` consumers share `k` values.
pub record Counts (n k : ℕ) (s : System) : Type 0 where
  pub bounded : s.current ≤ buffer_max
  pub kept : s.nums + s.current + consumed n s ≡ k
  pub room : 0 < waiters n s → waiters n s + s.current ≤ n
  pub fed : n ≤ 5 → s.producer ≡ Producer.waiting → waiters n s < s.current
  pub busy : s.producer ≡ Producer.locked → 0 < s.nums

abbrev pub producer_holds : Producer → Bool
producer_holds Producer.at_test = false
producer_holds Producer.locked = true
producer_holds Producer.waiting = false
producer_holds Producer.woken = false
producer_holds Producer.unlocking = true
producer_holds Producer.returned = false

abbrev pub consumer_holds : Consumer → Bool
consumer_holds Consumer.at_top = false
consumer_holds Consumer.locked = true
consumer_holds Consumer.waiting = false
consumer_holds Consumer.woken = false
consumer_holds Consumer.unlocking = true
consumer_holds Consumer.leaving = true
consumer_holds Consumer.returned = false

abbrev pub main_holds : Main → Bool
main_holds Main.joining_producer = false
main_holds Main.locking = false
main_holds Main.setting = true
main_holds Main.broadcasting = true
main_holds Main.unlocking = true
main_holds Main.joining_consumers = false
main_holds Main.returned = false

-- The thread stands between a lock of the mutex and the unlock or wait that gives it back.
abbrev pub holds : System → Thread → Bool
holds s producer_thread = producer_holds s.producer
holds s (consumer_thread i) = consumer_holds (s.consumers i)
holds s main_thread = main_holds s.main

pub record Locks (n : ℕ) (s : System) : Type 0 where
  pub owner : (t : Thread) → holds s t ≡ true → s.lock ≡ some t
  pub inside : (t : Thread) → s.lock ≡ some t → holds s t ≡ true
  pub absent : (i : ℕ) → n ≤ i → s.consumers i ≡ Consumer.at_top

-- Whether main has set `end`, and whether it has woken the consumers.
abbrev pub main_ended : Main → Bool
main_ended Main.joining_producer = false
main_ended Main.locking = false
main_ended Main.setting = false
main_ended Main.broadcasting = true
main_ended Main.unlocking = true
main_ended Main.joining_consumers = true
main_ended Main.returned = true

abbrev pub main_roused : Main → Bool
main_roused Main.joining_producer = false
main_roused Main.locking = false
main_roused Main.setting = false
main_roused Main.broadcasting = false
main_roused Main.unlocking = true
main_roused Main.joining_consumers = true
main_roused Main.returned = true

abbrev pub left : Consumer → Bool
left Consumer.at_top = false
left Consumer.locked = false
left Consumer.waiting = false
left Consumer.woken = false
left Consumer.unlocking = false
left Consumer.leaving = true
left Consumer.returned = true

pub record Stages (n : ℕ) (s : System) : Type 0 where
  pub joined : s.main ≢ Main.joining_producer → s.producer ≡ Producer.returned
  pub spent : s.producer ≡ Producer.returned → s.nums ≡ 0
  pub ended : s.ended ≡ main_ended s.main
  pub gone : (i : ℕ) → left (s.consumers i) ≡ true → s.ended ≡ true
  pub roused : main_roused s.main ≡ true → (i : ℕ) → s.consumers i ≢ Consumer.waiting
