-- ===== src/QueueMain/Tally.antt =====
-- Where the nodes of c/multi-thread-queue/main.c are: in the queue, or taken by a consumer; and what
-- a consumer's call of q_dequeue does to that.
use code_slices.Base.{
  ℕ, suc, ◌+◌, ◌-◌, ◌≤◌, ◌<◌, ◌≡◌, ◌≢◌, refl, ◌⊎◌, inl, inr, Bool, true, false, some, [], ◌∷◌,
  if◌then◌else◌, arith, length,
}
use code_slices.Family.{update, total, total-update}
use code_slices.Memory.{Ptr, null, Heap, Malloc}
use code_slices.Memory.Ends.{Ends, ends}
use code_slices.Memory.Chain.{Nodes}
use code_slices.Queue.{q_dequeue}
use code_slices.Queue.Enqueue.{IsQueue}
use code_slices.Queue.Dequeue.{q_dequeue-nil, q_dequeue-cons}
use code_slices.QueueMain.{Place, Consumer, Main, System, placed}
use code_slices.QueueMain.Stages.{Stages}

-- How many nodes a consumer has taken: the round that ends it takes none.
abbrev got_at : Place → ℕ → ℕ
got_at Place.unborn c = 0
got_at Place.at_start c = c
got_at Place.counting c = c
got_at Place.counted c = c
got_at Place.registered c = c
got_at Place.holding c = c
got_at Place.waiting c = c
got_at Place.woken c = c
got_at Place.leaving c = c
got_at Place.working c = c
got_at Place.returned c = c - 1

abbrev pub got : Consumer → ℕ
got c = got_at c.place c.count

-- Between q_init and q_clean.
abbrev pub in_use : Main → Bool
in_use Main.starting = false
in_use (Main.filling i) = true
in_use (Main.creating i) = true
in_use Main.joining_provider = true
in_use (Main.joining i) = true
in_use Main.cleaning = true
in_use Main.returned = false

-- The queue is at rest, and what was stored is in it or with the consumers.
pub record Holds (n : ℕ) (q : Ptr) (s : System) : Type 0 where
  pub nodes : Nodes
  pub queue : IsQueue s.heap q nodes
  pub kept : length nodes + total got n s.consumers ≡ s.stored
  pub drained : (i : ℕ) → i < n → (s.consumers i).place ≡ Place.returned → nodes ≡ []

-- The memory before q_init: the queue's head is there.
abbrev pub Ready : Ptr → Heap → Type 0
Ready q h = (h.live q ≡ true) × (h.live null ≡ false)

pub record Stored (n : ℕ) (q : Ptr) (s : System) : Type 0 where
  pub ready : s.main ≡ Main.starting → Ready q s.heap × (s.stored ≡ 0)
  pub holds : in_use s.main ≡ true → Holds n q s
  pub over : 1 ≤ n → s.main ≡ Main.returned → total got n s.consumers ≡ s.stored

-- A step beside the queue.
pub record Beside (n : ℕ) (s t : System) : Type 0 where
  pub heap : t.heap ≡ s.heap
  pub stored : t.stored ≡ s.stored
  pub totals : total got n t.consumers ≡ total got n s.consumers
  pub returned :
      (i : ℕ) → (t.consumers i).place ≡ Place.returned → (s.consumers i).place ≡ Place.returned
  pub used : in_use t.main ≡ in_use s.main
  pub starting : t.main ≡ Main.starting → s.main ≡ Main.starting
  pub ended : t.main ≡ Main.returned → s.main ≡ Main.returned

pub Beside-Stored : (n : ℕ) (q : Ptr) (s t : System) → Beside n s t → Stored n q s → Stored n q t
Beside-Stored n q s t b inv = record {
  ready = λ e. rw (b.heap, b.stored) (inv.ready (b.starting e));
  holds = λ e.
      let old = inv.holds (rw (← b.used) e) in
      record {
        nodes = old.nodes;
        queue = rw b.heap old.queue;
        kept = omega (arith, old.kept, b.totals, b.stored);
        drained = λ i lt gone. old.drained i lt (b.returned i gone);
      };
  over = λ some_there e. omega (arith, inv.over some_there (b.ended e), b.totals, b.stored);
}

-- What a command that ended with a known result left.
pub Ends-some :
    {A : Type 0} {P : A → Heap → Type 0} {a : A} {h : Heap} → Ends P (some (a, h)) → P a h
Ends-some (ends p) = p

-- Consumer `i` goes to `p` without a call of the queue.
pub record Walk (s t : System) (i : ℕ) (p : Place) : Type 0 where
  pub born : (s.consumers i).place ≢ Place.unborn
  pub going : (s.consumers i).place ≢ Place.returned
  pub lives : p ≢ Place.unborn
  pub goes_on : p ≢ Place.returned
  pub heap : t.heap ≡ s.heap
  pub stored : t.stored ≡ s.stored
  pub main : t.main ≡ s.main

module _ (m : Malloc) (q : Ptr) (k n : ℕ) (s : System) (stages : Stages n s)
    (inv : Stored n q s) where
  open inv use {ready, holds, over}

  -- Consumer `i` goes on without a call of the queue.
  pub walked :
      (i : ℕ) (p : Place) (t : System)
      → i < n
      → t.consumers ≡ placed s i p
      → Walk s t i p
      → Stored n q t
  walked i p t lt ec w =
      let c : Consumer = record { place = p; count = (s.consumers i).count } in
      Beside-Stored n q s t
        (record {
          heap = w.heap;
          stored = w.stored;
          totals = ground (arith, total-update got n i s.consumers c lt);
          returned = λ j. ground arith;
          used = rw w.main;
          starting = λ e. rw (← w.main) e;
          ended = λ e. rw (← w.main) e;
        })
        inv

  -- A consumer at its loop finds the queue in use.
  pub in_use_working :
      (i : ℕ) → i < n → (s.consumers i).place ≡ Place.working → in_use s.main ≡ true
  in_use_working i lt e = ground (arith, stages.unborn i, stages.joined i)

  -- What a call of q_dequeue leaves: a node fewer, or an empty queue.
  abbrev pub Dequeued : Bool → Heap → Nodes → Type 0
  Dequeued ret h nodes =
      ((ret ≡ true) × (rest : Nodes) × IsQueue h q rest × (length nodes ≡ suc (length rest)))
      ⊎ ((ret ≡ false) × IsQueue h q [] × (nodes ≡ []))

  pub dequeued :
      (value : Ptr) (ret : Bool) (h : Heap) (nodes : Nodes)
      → IsQueue s.heap q nodes
      → q_dequeue q value s.heap ≡ some (ret, h)
      → Dequeued ret h nodes
  dequeued value ret h [] is e =
      let (b, rest, _, _) = Ends-some (rw e at (q_dequeue-nil s.heap q value is)) in
      inr (b, rest, refl)
  dequeued value ret h ((p, d) ∷ nodes) is e =
      let (b, rest, _) = Ends-some (rw e at (q_dequeue-cons s.heap q value p d nodes is)) in
      inl (b, nodes, rest, refl)

  abbrev stepped : ℕ → Place → Consumer
  stepped i p = record { place = p; count = (s.consumers i).count + 1 }

  -- The state after consumer `i` has called q_dequeue.
  after :
      (i : ℕ) (p : Place) (h : Heap) (nodes : Nodes)
      → i < n
      → (s.consumers i).place ≡ Place.working
      → IsQueue h q nodes
      → length nodes + total got n (update s.consumers i (stepped i p)) ≡ s.stored
      → ((j : ℕ)
          → j < n
          → (update s.consumers i (stepped i p) j).place ≡ Place.returned
          → nodes ≡ [])
      → Stored n q (record s { heap = h; consumers = update s.consumers i (stepped i p) })
  after i p h nodes lt e is kept drained =
      let used = in_use_working i lt e in
      record {
        ready = λ st. absurd (ground arith);
        holds = λ _. record { nodes = nodes; queue = is; kept = kept; drained = drained };
        over = λ _ en. absurd (ground arith);
      }

  pub dequeue-Stored :
      (i : ℕ) (value : Ptr) (ret : Bool) (h : Heap)
      → i < n
      → (s.consumers i).place ≡ Place.working
      → q_dequeue q value s.heap ≡ some (ret, h)
      → Stored n q (record s {
        heap = h;
        consumers = update s.consumers i (record {
          place = if ret then Place.working else Place.returned;
          count = (s.consumers i).count + 1;
        });
      })
  dequeue-Stored i value ret h lt e run =
      let old = holds (in_use_working i lt e) in
      elim (dequeued value ret h old.nodes old.queue run) [
        | inl (b, rest, is, len) ↦ rw b (
            after i Place.working h rest lt e is
              (ground
                (arith, old.kept, total-update got n i s.consumers (stepped i Place.working) lt))
              λ j lj gone. absurd (ground (arith, old.drained j lj)))
        | inr (b, is, none_left) ↦ rw b (
            after i Place.returned h [] lt e is
              (ground
                (arith, old.kept, total-update got n i s.consumers (stepped i Place.returned) lt))
              λ j lj gone. refl)
      ]
