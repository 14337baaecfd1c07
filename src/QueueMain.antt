-- ===== src/QueueMain.antt =====
-- c/multi-thread-queue/main.c: main fills the queue, a provider wakes the consumers, and the
-- consumers empty the queue. The threads are interleaved at their calls of the mutexes, of the
-- condition variables and of the queue. A q_dequeue holds the queue's mutex from its first access
-- to its last, so that one call is one step.
pub mod Stages
pub mod Tally
pub mod Accounting
pub mod Missed
pub mod Holding
pub mod Awake
pub mod Finish
pub mod Tests
use code_slices.Base.{ℕ, ◌+◌, ◌≤◌, ◌<◌, ◌≡◌, Bool, Option, none, some, if◌then◌else◌}
use code_slices.Family.{update}
use code_slices.Memory.{Ptr, Heap, Malloc}
use code_slices.Queue.{q_init, q_clean, q_enqueue, q_dequeue}

-- DATA_NUMS and CONSUMER_THREAD_NUMS
abbrev pub data_nums : ℕ
data_nums = 2000000

abbrev pub consumer_thread_nums : ℕ
consumer_thread_nums = 8

-- Where consumer_thread stands: not created; before the lock of `t_lock`; inside, before and behind
-- `g_thread_count++`; before the lock of `g_lock`; inside; blocked in pthread_cond_wait; woken and in
-- want of `g_lock`; before its unlock; at the loop; returned.
pub data Place : Type 0 where
  unborn at_start counting counted registered holding waiting woken leaving working returned : Place

-- `count` is the local variable of that name.
pub record Consumer : Type 0 where
  pub place : Place
  pub count : ℕ

-- Where provider_thread stands: at the test of `g_thread_count`; before the lock of `g_lock`;
-- inside; behind the broadcast; returned.
pub data Provider : Type 0 where
  polling wanting broadcasting unlocking returned : Provider

-- Where main stands: before q_init; about to enqueue `i`; about to create consumer `i`; at the join
-- of the provider; at the join of consumer `i`; before q_clean; returned.
pub data Main : Type 0 where
  starting : Main
  filling creating : ℕ → Main
  joining_provider : Main
  joining : ℕ → Main
  cleaning returned : Main

-- Who holds `g_lock`.
pub data Holder : Type 0 where
  provider_thread : Holder
  consumer_thread : ℕ → Holder

-- The code does not keep `stored`, the number of calls of q_enqueue that returned TRUE.
pub record System : Type 0 where
  pub heap : Heap
  pub stored : ℕ
  pub g_thread_count : ℕ
  pub t_lock : Option ℕ
  pub g_lock : Option Holder
  pub provider : Provider
  pub consumers : ℕ → Consumer
  pub main : Main

abbrev pub placed : System → ℕ → Place → ℕ → Consumer
placed s i p = update s.consumers i (record { place = p; count = (s.consumers i).count })

-- pthread_cond_broadcast (&g_cond)
abbrev pub rouse : Place → Place
rouse Place.waiting = Place.woken
rouse Place.unborn = Place.unborn
rouse Place.at_start = Place.at_start
rouse Place.counting = Place.counting
rouse Place.counted = Place.counted
rouse Place.registered = Place.registered
rouse Place.holding = Place.holding
rouse Place.woken = Place.woken
rouse Place.leaving = Place.leaving
rouse Place.working = Place.working
rouse Place.returned = Place.returned

abbrev pub roused : (ℕ → Consumer) → ℕ → Consumer
roused c i = record { place = rouse (c i).place; count = (c i).count }

-- One step of consumer `i`; `q` is the queue. No thread waits on `t_cond`, so that its signal does
-- nothing.
pub data Consume (q : Ptr) (i : ℕ) (s : System) : System → Type 0 where
  lock_count :
      (s.consumers i).place ≡ Place.at_start
      → s.t_lock ≡ none
      → Consume q i s (record s { t_lock = some i; consumers = placed s i Place.counting })
  count_up :
      (s.consumers i).place ≡ Place.counting
      → Consume q i s
          (record s { g_thread_count = s.g_thread_count + 1; consumers = placed s i Place.counted })
  unlock_count :
      (s.consumers i).place ≡ Place.counted
      → Consume q i s (record s { t_lock = none; consumers = placed s i Place.registered })
  lock :
      (s.consumers i).place ≡ Place.registered
      → s.g_lock ≡ none
      → Consume q i s
          (record s { g_lock = some (consumer_thread i); consumers = placed s i Place.holding })
  wait :
      (s.consumers i).place ≡ Place.holding
      → Consume q i s (record s { g_lock = none; consumers = placed s i Place.waiting })
  relock :
      (s.consumers i).place ≡ Place.woken
      → s.g_lock ≡ none
      → Consume q i s
          (record s { g_lock = some (consumer_thread i); consumers = placed s i Place.leaving })
  unlock :
      (s.consumers i).place ≡ Place.leaving
      → Consume q i s (record s { g_lock = none; consumers = placed s i Place.working })
  dequeue :
      (value : Ptr) {ret : Bool} {h : Heap}
      → (s.consumers i).place ≡ Place.working
      → q_dequeue q value s.heap ≡ some (ret, h)
      → Consume q i s (record s {
        heap = h;
        consumers = update s.consumers i (record {
          place = if ret then Place.working else Place.returned;
          count = (s.consumers i).count + 1;
        });
      })

-- One step of provider_thread, which waits for `n` threads. It reads `g_thread_count` with no lock.
pub data Provide (n : ℕ) (s : System) : System → Type 0 where
  poll :
      s.provider ≡ Provider.polling
      → s.g_thread_count < n
      → Provide n s (record s { provider = Provider.polling })
  ready :
      s.provider ≡ Provider.polling
      → n ≤ s.g_thread_count
      → Provide n s (record s { provider = Provider.wanting })
  lock :
      s.provider ≡ Provider.wanting
      → s.g_lock ≡ none
      → Provide n s (record s { g_lock = some provider_thread; provider = Provider.broadcasting })
  broadcast :
      s.provider ≡ Provider.broadcasting
      → Provide n s (record s { consumers = roused s.consumers; provider = Provider.unlocking })
  unlock :
      s.provider ≡ Provider.unlocking
      → Provide n s (record s { g_lock = none; provider = Provider.returned })

-- One step of main with `k` nodes and `n` consumers. What q_enqueue returns is not looked at.
pub data Conduct (m : Malloc) (q : Ptr) (k n : ℕ) (s : System) : System → Type 0 where
  init :
      {h : Heap}
      → s.main ≡ Main.starting
      → q_init q s.heap ≡ some (tt, h)
      → Conduct m q k n s (record s { heap = h; main = Main.filling 0 })
  enqueue :
      {i : ℕ} {done : Bool} {h : Heap}
      → s.main ≡ Main.filling i
      → i < k
      → q_enqueue m q i s.heap ≡ some (done, h)
      → Conduct m q k n s (record s {
        heap = h;
        stored = if done then s.stored + 1 else s.stored;
        main = Main.filling (i + 1);
      })
  filled :
      {i : ℕ}
      → s.main ≡ Main.filling i
      → k ≤ i
      → Conduct m q k n s (record s { main = Main.creating 0 })
  create :
      {i : ℕ}
      → s.main ≡ Main.creating i
      → i < n
      → Conduct m q k n s (record s {
        consumers = update s.consumers i (record { place = Place.at_start; count = 0 });
        main = Main.creating (i + 1);
      })
  created :
      {i : ℕ}
      → s.main ≡ Main.creating i
      → n ≤ i
      → Conduct m q k n s (record s { main = Main.joining_provider })
  join_provider :
      s.main ≡ Main.joining_provider
      → s.provider ≡ Provider.returned
      → Conduct m q k n s (record s { main = Main.joining 0 })
  join :
      {i : ℕ}
      → s.main ≡ Main.joining i
      → i < n
      → (s.consumers i).place ≡ Place.returned
      → Conduct m q k n s (record s { main = Main.joining (i + 1) })
  joined :
      {i : ℕ}
      → s.main ≡ Main.joining i
      → n ≤ i
      → Conduct m q k n s (record s { main = Main.cleaning })
  clean :
      (fuel : ℕ) {h : Heap}
      → s.main ≡ Main.cleaning
      → q_clean fuel q s.heap ≡ some (tt, h)
      → Conduct m q k n s (record s { heap = h; main = Main.returned })

-- A step that some thread takes by itself.
pub data Act (m : Malloc) (q : Ptr) (k n : ℕ) (s t : System) : Type 0 where
  consume : (i : ℕ) → i < n → Consume q i s t → Act m q k n s t
  provide : Provide n s t → Act m q k n s t
  conduct : Conduct m q k n s t → Act m q k n s t

-- A consumer that waits may also wake without a signal.
pub data Step (m : Malloc) (q : Ptr) (k n : ℕ) (s : System) : System → Type 0 where
  act : {t : System} → Act m q k n s t → Step m q k n s t
  spurious :
      (i : ℕ)
      → i < n
      → (s.consumers i).place ≡ Place.waiting
      → Step m q k n s (record s { consumers = placed s i Place.woken })

abbrev pub start : Heap → System
start h = record {
  heap = h;
  stored = 0;
  g_thread_count = 0;
  t_lock = none;
  g_lock = none;
  provider = Provider.polling;
  consumers = λ _. record { place = Place.unborn; count = 0 };
  main = Main.starting;
}

pub data Reach (m : Malloc) (q : Ptr) (k n : ℕ) (h : Heap) : System → Type 0 where
  here : Reach m q k n h (start h)
  later : {s t : System} → Reach m q k n h s → Step m q k n s t → Reach m q k n h t

-- A run from `s` in which no thread wakes without a signal.
pub data Run (m : Malloc) (q : Ptr) (k n : ℕ) (s : System) : System → Type 0 where
  stay : Run m q k n s s
  go : {t u : System} → Run m q k n s t → Act m q k n t u → Run m q k n s u
