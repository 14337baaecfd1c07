-- ===== src/ProducerConsumer.antt =====
-- c/producer-consumer/main.c: a producer, consumers and main, interleaved at their calls of the mutex
-- `c_lock` and of the condition variable `c_cond`.
pub mod Invariant
pub mod Safety
pub mod Return
pub mod Stack
pub mod Values
pub mod Measure
pub mod Ending
pub mod Progress
mod Tests
use code_slices.Base.{ℕ, ◌+◌, ◌-◌, ◌<◌, ◌≡◌, ◌≢◌, Bool, true, false, Option, none, some}
use code_slices.Family.{update}

-- BUFFER_MAX, CONSUMER_NUMS and DATA_NUMS
abbrev pub buffer_max : ℕ
buffer_max = 3

abbrev pub consumer_nums : ℕ
consumer_nums = 4

abbrev pub data_nums : ℕ
data_nums = 20000

pub data Thread : Type 0 where
  producer_thread : Thread
  consumer_thread : ℕ → Thread
  main_thread : Thread

-- Where producer_thread stands: at the loop's test; inside with the mutex; blocked in
-- pthread_cond_wait, then woken and in want of the mutex; before the unlock; returned.
pub data Producer : Type 0 where
  at_test locked waiting woken unlocking returned : Producer

-- The same for consumer_thread; `leaving` is the unlock before its `break`.
pub data Consumer : Type 0 where
  at_top locked waiting woken unlocking leaving returned : Consumer

-- Where main stands, once the threads are created: the join of the producer, the lock, the setting
-- of `end`, the broadcast, the unlock, the joins of the consumers, the return.
pub data Main : Type 0 where
  joining_producer locking setting broadcasting unlocking joining_consumers returned : Main

-- `ended` is `end`; `nums` is the producer's local variable, `score i` that of consumer `i`.
pub record System : Type 0 where
  pub lock : Option Thread
  pub ended : Bool
  pub buffer : ℕ → ℕ
  pub current : ℕ
  pub nums : ℕ
  pub score : ℕ → ℕ
  pub producer : Producer
  pub consumers : ℕ → Consumer
  pub main : Main

-- pthread_cond_signal wakes one of the threads that wait, if there is one. More may wake at any time
-- (`spurious` below).
pub data Signal (n : ℕ) (p : Producer) (c : ℕ → Consumer) : Producer → (ℕ → Consumer) → Type 0 where
  wake_producer : p ≡ Producer.waiting → Signal n p c Producer.woken c
  wake_consumer :
      (i : ℕ) → i < n → c i ≡ Consumer.waiting → Signal n p c p (update c i Consumer.woken)
  nobody : p ≢ Producer.waiting → ((i : ℕ) → i < n → c i ≢ Consumer.waiting) → Signal n p c p c

-- pthread_cond_broadcast wakes every consumer that waits.
abbrev pub rouse : Consumer → Consumer
rouse Consumer.waiting = Consumer.woken
rouse Consumer.at_top = Consumer.at_top
rouse Consumer.locked = Consumer.locked
rouse Consumer.woken = Consumer.woken
rouse Consumer.unlocking = Consumer.unlocking
rouse Consumer.leaving = Consumer.leaving
rouse Consumer.returned = Consumer.returned

abbrev pub rouse_producer : Producer → Producer
rouse_producer Producer.waiting = Producer.woken
rouse_producer Producer.at_test = Producer.at_test
rouse_producer Producer.locked = Producer.locked
rouse_producer Producer.woken = Producer.woken
rouse_producer Producer.unlocking = Producer.unlocking
rouse_producer Producer.returned = Producer.returned

-- One step of producer_thread.
pub data Produce (n : ℕ) (s : System) : System → Type 0 where
  lock :
      s.producer ≡ Producer.at_test
      → 0 < s.nums
      → s.lock ≡ none
      → Produce n s (record s { lock = some producer_thread; producer = Producer.locked })
  finish :
      s.producer ≡ Producer.at_test
      → s.nums ≡ 0
      → Produce n s (record s { producer = Producer.returned })
  wait :
      s.producer ≡ Producer.locked
      → s.current ≡ buffer_max
      → Produce n s (record s { lock = none; producer = Producer.waiting })
  put :
      {p : Producer} {c : ℕ → Consumer}
      → s.producer ≡ Producer.locked
      → s.current ≢ buffer_max
      → Signal n Producer.unlocking s.consumers p c
      → Produce n s (record s {
        buffer = update s.buffer s.current s.nums;
        current = s.current + 1;
        nums = s.nums - 1;
        producer = p;
        consumers = c;
      })
  unlock :
      s.producer ≡ Producer.unlocking
      → Produce n s (record s { lock = none; producer = Producer.at_test })
  relock :
      s.producer ≡ Producer.woken
      → s.lock ≡ none
      → Produce n s (record s { lock = some producer_thread; producer = Producer.unlocking })

-- One step of consumer `i`.
pub data Consume (n : ℕ) (i : ℕ) (s : System) : System → Type 0 where
  lock :
      s.consumers i ≡ Consumer.at_top
      → s.lock ≡ none
      → Consume n i s (record s {
        lock = some (consumer_thread i);
        consumers = update s.consumers i Consumer.locked;
      })
  leave :
      s.consumers i ≡ Consumer.locked
      → s.ended ≡ true
      → Consume n i s (record s { consumers = update s.consumers i Consumer.leaving })
  wait :
      s.consumers i ≡ Consumer.locked
      → s.ended ≡ false
      → s.current ≡ 0
      → Consume n i s (record s { lock = none; consumers = update s.consumers i Consumer.waiting })
  take :
      {p : Producer} {c : ℕ → Consumer}
      → s.consumers i ≡ Consumer.locked
      → s.ended ≡ false
      → s.current ≢ 0
      → Signal n s.producer (update s.consumers i Consumer.unlocking) p c
      → Consume n i s (record s {
        current = s.current - 1;
        score = update s.score i (s.score i + 1);
        producer = p;
        consumers = c;
      })
  unlock :
      s.consumers i ≡ Consumer.unlocking
      → Consume n i s (record s { lock = none; consumers = update s.consumers i Consumer.at_top })
  relock :
      s.consumers i ≡ Consumer.woken
      → s.lock ≡ none
      → Consume n i s (record s {
        lock = some (consumer_thread i);
        consumers = update s.consumers i Consumer.unlocking;
      })
  return :
      s.consumers i ≡ Consumer.leaving
      → Consume n i s (record s { lock = none; consumers = update s.consumers i Consumer.returned })

-- One step of main.
pub data Conduct (n : ℕ) (s : System) : System → Type 0 where
  join_producer :
      s.main ≡ Main.joining_producer
      → s.producer ≡ Producer.returned
      → Conduct n s (record s { main = Main.locking })
  lock :
      s.main ≡ Main.locking
      → s.lock ≡ none
      → Conduct n s (record s { lock = some main_thread; main = Main.setting })
  set_end :
      s.main ≡ Main.setting → Conduct n s (record s { ended = true; main = Main.broadcasting })
  broadcast :
      s.main ≡ Main.broadcasting
      → Conduct n s (record s {
        producer = rouse_producer s.producer;
        consumers = (λ i. rouse (s.consumers i));
        main = Main.unlocking;
      })
  unlock :
      s.main ≡ Main.unlocking
      → Conduct n s (record s { lock = none; main = Main.joining_consumers })
  join_consumers :
      s.main ≡ Main.joining_consumers
      → ((i : ℕ) → i < n → s.consumers i ≡ Consumer.returned)
      → Conduct n s (record s { main = Main.returned })

-- A thread that waits on the condition variable may wake without a signal.
pub data Spurious (n : ℕ) (s : System) : System → Type 0 where
  producer_wakes :
      s.producer ≡ Producer.waiting → Spurious n s (record s { producer = Producer.woken })
  consumer_wakes :
      (i : ℕ)
      → i < n
      → s.consumers i ≡ Consumer.waiting
      → Spurious n s (record s { consumers = update s.consumers i Consumer.woken })

-- A step that some thread takes by itself.
pub data Act (n : ℕ) (s t : System) : Type 0 where
  produce : Produce n s t → Act n s t
  consume : (i : ℕ) → i < n → Consume n i s t → Act n s t
  conduct : Conduct n s t → Act n s t

pub data Step (n : ℕ) (s t : System) : Type 0 where
  act : Act n s t → Step n s t
  spurious : Spurious n s t → Step n s t

-- `n` consumers and the producer's count, as main starts them.
abbrev pub start : ℕ → System
start k = record {
  lock = none;
  ended = false;
  buffer = λ _. 0;
  current = 0;
  nums = k;
  score = λ _. 0;
  producer = Producer.at_test;
  consumers = λ _. Consumer.at_top;
  main = Main.joining_producer;
}

pub data Reach (n k : ℕ) : System → Type 0 where
  here : Reach n k (start k)
  later : {s t : System} → Reach n k s → Step n s t → Reach n k t
