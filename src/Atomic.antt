-- ===== src/Atomic.antt =====
-- The queue of c/multi-thread-queue/queue.c called by several threads at once. A call is cut into its
-- single accesses of the memory, between which every other thread may run; the routines of list.c
-- and queue.c are given here access by access.
pub mod Models
pub mod Listing
pub mod Calls
pub mod Serial
pub mod Moves
pub mod Span
mod Tests
use code_slices.Base.{
  ℕ, ◌≡◌, Bool, true, false, Option, none, some, List, [], ◌∷◌, ◌++◌, ◌==◌, if◌then◌else◌,
}
use code_slices.Family.{update}
use code_slices.Memory.{
  Ptr, null, Heap, Cmd, load_prev, load_next, load_payload, set_prev, set_next, set_payload, Malloc,
  malloc, free,
}
use code_slices.Memory.Mutex.{with_lock}
use code_slices.Queue.Fifo.{Call, enqueue, dequeue}

-- What a thread still does of a call: it returns, asks for the queue's mutex or gives it back, or
-- accesses the memory, which is undefined where `step` gives `none`.
pub data Script : Type 0 where
  returns : Bool → Script
  lock unlock : Script → Script
  access : (step : Heap → Option Heap) → (next : Heap → Script) → Script

-- A part of a routine that gives an `A` to what follows it.
abbrev pub Code : Type 0 → Type 0
Code A = (A → Script) → Script

abbrev pub heap_of : {A : Type 0} → Option (A × Heap) → Option Heap
heap_of none = none
heap_of (some (_, h)) = some h

abbrev pub next_of : {A : Type 0} → Option (A × Heap) → (A → Script) → Script
next_of none k = returns false
next_of (some (a, _)) k = k a

-- One access.
unfoldable pub single : {A : Type 0} → Cmd A → Code A
single m k = access (λ h. heap_of (m h)) (λ h. next_of (m h) k)

abbrev pub pure : {A : Type 0} → A → Code A
pure a k = k a

infixl 5 ◌>>=◌ ◌>>◌
abbrev pub ◌>>=◌ : {A B : Type 0} → Code A → (A → Code B) → Code B
c >>= d = λ k. c (λ a. d a k)

abbrev pub ◌>>◌ : {A B : Type 0} → Code A → Code B → Code B
c >> d = c >>= λ _. d

-- LIST_IS_EMPTY
unfoldable pub is_empty : Ptr → Code Bool
is_empty list = do
  prev ← single (load_prev list)
  next ← single (load_next list)
  pure (if prev == list then next == list else false)

unfoldable pub list_init : Ptr → Code (Unit {0})
list_init list =
    if list == null
    then pure tt
    else do single (set_prev list list); single (set_next list list); single (set_payload list null)

unfoldable pub list_new : Malloc → ℕ → Code Ptr
list_new m d = do
  list ← single (malloc m)
  if list == null then pure list else do list_init list; single (set_payload list d); pure list

unfoldable pub list_free : Ptr → Code (Unit {0})
list_free node = if node == null then pure tt else do
  single (set_prev node null)
  single (set_next node null)
  single (set_payload node null)
  single (free node)

unfoldable pub list_remove : Ptr → Ptr → Code Ptr
list_remove list node = do
  empty ← is_empty list
  if empty then pure node else do
    prev ← single (load_prev node)
    next ← single (load_next node)
    single (set_next prev next)
    single (set_prev next prev)
    single (set_prev node node)
    single (set_next node node)
    pure node

unfoldable pub list_add : Ptr → Ptr → Code Ptr
list_add list node = do
  empty ← is_empty list
  if empty
      then (do
        single (set_next list node)
        single (set_prev list node)
        single (set_prev node list)
        single (set_next node list)
        pure list)
      else (do
        last ← single (load_prev list)
        single (set_next last node)
        tail ← single (load_prev list)
        single (set_prev node tail)
        single (set_next node list)
        single (set_prev list node)
        pure list)

-- `pthread_mutex_unlock (&q->lock); return ret;`
abbrev pub leave : Bool → Script
leave ret = unlock (returns ret)

unfoldable pub q_enqueue : Malloc → Ptr → ℕ → Script
q_enqueue m q d =
    lock
      (list_new m d λ list. if list == null then leave false else list_add q list λ _. leave true)

unfoldable pub assign_data : Ptr → Ptr → Code ℕ
assign_data target list = if target == null then pure target else single (load_payload list)

unfoldable pub take_first : Ptr → Ptr → Script
take_first q target =
    single (load_next q) λ first.
      list_remove q first λ list. assign_data target list λ _. list_free list λ _. leave true

unfoldable pub q_dequeue : Ptr → Ptr → Script
q_dequeue q target = lock (is_empty q λ empty. if empty then leave false else take_first q target)

unfoldable pub script_of : Malloc → Ptr → Call → Script
script_of m q (enqueue d) = q_enqueue m q d
script_of m q (dequeue target) = q_dequeue q target

-- Where a thread stands: outside the queue, or in a call.
pub data Place : Type 0 where
  idle : Place
  running : Call → Script → Place

-- The calls that have given the mutex back, in that order, with what they return; the code does not
-- keep these two.
pub record System : Type 0 where
  pub heap : Heap
  pub threads : ℕ → Place
  pub calls : List Call
  pub results : List Bool

abbrev pub put : System → ℕ → Place → ℕ → Place
put s i p = update s.threads i p

-- One step of thread `i` in a call. The mutex is given to a thread that asks for it when nobody holds
-- it.
pub data Act (q : Ptr) (i : ℕ) (s : System) : System → Type 0 where
  locks :
      {c : Call} {r : Script}
      → s.threads i ≡ running c (lock r)
      → s.heap.lock q ≡ some false
      → Act q i s
          (record s { heap = with_lock s.heap q (some true); threads = put s i (running c r) })
  accesses :
      {c : Call} {step : Heap → Option Heap} {next : Heap → Script} {h : Heap}
      → s.threads i ≡ running c (access step next)
      → step s.heap ≡ some h
      → Act q i s (record s { heap = h; threads = put s i (running c (next s.heap)) })
  unlocks :
      {c : Call} {ret : Bool}
      → s.threads i ≡ running c (leave ret)
      → s.heap.lock q ≡ some true
      → Act q i s (record s {
        heap = with_lock s.heap q (some false);
        threads = put s i (running c (returns ret));
        calls = s.calls ++ c ∷ [];
        results = s.results ++ ret ∷ [];
      })
  leaves :
      {c : Call} {ret : Bool}
      → s.threads i ≡ running c (returns ret)
      → Act q i s (record s { threads = put s i idle })

-- A thread that is in no call may begin any.
pub data Step (m : Malloc) (q : Ptr) (s : System) : System → Type 0 where
  call :
      (i : ℕ) (c : Call)
      → s.threads i ≡ idle
      → Step m q s (record s { threads = put s i (running c (script_of m q c)) })
  act : (i : ℕ) {t : System} → Act q i s t → Step m q s t

abbrev pub begin : Heap → System
begin h = record { heap = h; threads = λ _. idle; calls = []; results = [] }

pub data Reach (m : Malloc) (q : Ptr) (h : Heap) : System → Type 0 where
  here : Reach m q h (begin h)
  later : {s t : System} → Reach m q h s → Step m q s t → Reach m q h t
