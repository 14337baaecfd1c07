-- ===== src/QueueMain/Accounting.antt =====
-- Every node that main of c/multi-thread-queue/main.c stores is taken by one consumer.
use code_slices.Base.{
  ℕ, ◌+◌, ◌≤◌, ◌<◌, ◌≡◌, refl, ◌⊎◌, inl, inr, Bool, true, Option, some, [], ◌∷◌, ◌++◌,
  if◌then◌else◌, arith, length-append,
}
use code_slices.Family.{total, total-update, total-eq-zero, total_ext}
use code_slices.Memory.{Ptr, Heap, Malloc}
use code_slices.Memory.Ends.{Ends, ends}
use code_slices.Memory.Chain.{Nodes}
use code_slices.Queue.{q_init, q_enqueue, q_dequeue}
use code_slices.Queue.Enqueue.{IsQueue, locked, q_init-IsQueue, q_enqueue_lem}
use code_slices.Queue.Dequeue.{q_dequeue-nil, q_dequeue-cons}
use code_slices.QueueMain.{
  Place, Main, System, roused, Consume, Provide, Conduct, consume, provide, conduct, Step, act,
  spurious, Reach, here, later,
}
use code_slices.QueueMain.Stages.{Stages, Reach-Stages}
use code_slices.QueueMain.Tally.{
  got, in_use, Holds, Ready, Stored, Beside-Stored, Ends-some, walked, in_use_working,
  dequeue-Stored,
}

module _ (m : Malloc) (q : Ptr) (k n : ℕ) (s : System) (stages : Stages n s)
    (inv : Stored n q s) where
  open inv use {ready, holds, over}

  Consume-Stored : (i : ℕ) → i < n → {t : System} → Consume q i s t → Stored n q t
  Consume-Stored i lt {t} (Consume.lock_count e free) =
      walked m q k n s stages inv i Place.counting t lt refl (ground arith)
  Consume-Stored i lt {t} (Consume.count_up e) =
      walked m q k n s stages inv i Place.counted t lt refl (ground arith)
  Consume-Stored i lt {t} (Consume.unlock_count e) =
      walked m q k n s stages inv i Place.registered t lt refl (ground arith)
  Consume-Stored i lt {t} (Consume.lock e free) =
      walked m q k n s stages inv i Place.holding t lt refl (ground arith)
  Consume-Stored i lt {t} (Consume.wait e) =
      walked m q k n s stages inv i Place.waiting t lt refl (ground arith)
  Consume-Stored i lt {t} (Consume.relock e free) =
      walked m q k n s stages inv i Place.leaving t lt refl (ground arith)
  Consume-Stored i lt {t} (Consume.unlock e) =
      walked m q k n s stages inv i Place.working t lt refl (ground arith)
  Consume-Stored i lt (Consume.dequeue value {ret} {h} e run) =
      dequeue-Stored m q k n s stages inv i value ret h lt e run

  -- A step that changes neither a consumer nor the memory.
  beside :
      (t : System)
      → t.heap ≡ s.heap
      → t.stored ≡ s.stored
      → t.consumers ≡ s.consumers
      → in_use t.main ≡ in_use s.main
      → (t.main ≡ Main.starting → s.main ≡ Main.starting)
      → (t.main ≡ Main.returned → s.main ≡ Main.returned)
      → Stored n q t
  beside t eh es ec used st en =
      Beside-Stored n q s t
        (record {
          heap = eh;
          stored = es;
          totals = rw ec;
          returned = λ i e. rw ec at e;
          used = used;
          starting = st;
          ended = en;
        })
        inv

  Provide-Stored : {t : System} → Provide n s t → Stored n q t
  Provide-Stored {t} (Provide.poll e less) = beside t refl refl refl refl (λ e. e) (λ e. e)
  Provide-Stored {t} (Provide.ready e enough) = beside t refl refl refl refl (λ e. e) (λ e. e)
  Provide-Stored {t} (Provide.lock e free) = beside t refl refl refl refl (λ e. e) (λ e. e)
  Provide-Stored {t} (Provide.broadcast e) =
      Beside-Stored n q s t
        (record {
          heap = refl;
          stored = refl;
          totals = total_ext got n (roused s.consumers) s.consumers (λ i lt. ground arith);
          returned = λ i. ground arith;
          used = refl;
          starting = λ e. e;
          ended = λ e. e;
        })
        inv
  Provide-Stored {t} (Provide.unlock e) = beside t refl refl refl refl (λ e. e) (λ e. e)

  -- Before main creates threads there is none that has taken a node.
  none_got :
      (s.main ≡ Main.starting) ⊎ ((i : ℕ) × (s.main ≡ Main.filling i)) → total got n s.consumers ≡ 0
  none_got e = total-eq-zero got n s.consumers (λ i lt. ground (arith, stages.unborn i))

  init-Stored :
      (h : Heap)
      → s.main ≡ Main.starting
      → q_init q s.heap ≡ some (tt, h)
      → Stored n q (record s { heap = h; main = Main.filling 0 })
  init-Stored h e run =
      let (r, z) = ready e in
      let (is, _) = Ends-some (rw run at (q_init-IsQueue s.heap q (r.0) (r.1))) in
      record {
        ready = λ st. absurd (cc);
        holds = λ _. record {
          nodes = [];
          queue = is;
          kept = omega (arith, none_got (inl e));
          drained = λ i lt gone. refl;
        };
        over = λ _ en. absurd (cc);
      }

  enqueue-Stored :
      (i : ℕ) (done : Bool) (h : Heap)
      → s.main ≡ Main.filling i
      → q_enqueue m q i s.heap ≡ some (done, h)
      → Stored n q (record s {
        heap = h;
        stored = if done then s.stored + 1 else s.stored;
        main = Main.filling (i + 1);
      })
  enqueue-Stored i done h e run =
      let old = holds (rw e) in
      record {
        ready = λ st. absurd (cc);
        holds = λ _. elim (Ends-some (rw run at (q_enqueue_lem m s.heap q i old.nodes old.queue))) [
          | inl (b, longer) ↦ record {
            nodes = old.nodes ++ (m.address (locked s.heap q), i) ∷ [];
            queue = longer;
            kept =
                ground (
                  arith,
                  old.kept,
                  length-append old.nodes ((m.address (locked s.heap q), i) ∷ []),
                );
            drained = λ j lt gone. absurd (ground (arith, stages.unborn j));
          }
          | inr (b, same, _) ↦ record {
            nodes = old.nodes;
            queue = same;
            kept = ground (arith, old.kept);
            drained = λ j lt gone. absurd (ground (arith, stages.unborn j));
          }
        ];
        over = λ _ en. absurd (cc);
      }

  Conduct-Stored : {t : System} → Conduct m q k n s t → Stored n q t
  Conduct-Stored (Conduct.init {h} e run) = init-Stored h e run
  Conduct-Stored (Conduct.enqueue {i} {done} {h} e lt run) = enqueue-Stored i done h e run
  Conduct-Stored {t} (Conduct.filled e le) =
      beside t refl refl refl (ground arith) (λ st. absurd (cc)) (λ en. absurd (cc))
  Conduct-Stored {t} (Conduct.create {i} e lt) =
      Beside-Stored n q s t
        (record {
          heap = refl;
          stored = refl;
          totals = ground (
            arith,
            stages.unborn i,
            total-update got n i s.consumers (record { place = Place.at_start; count = 0 }) lt,
          );
          returned = λ j. ground arith;
          used = ground arith;
          starting = λ st. absurd (cc);
          ended = λ en. absurd (cc);
        })
        inv
  Conduct-Stored {t} (Conduct.created e le) =
      beside t refl refl refl (ground arith) (λ st. absurd (cc)) (λ en. absurd (cc))
  Conduct-Stored {t} (Conduct.join_provider e done) =
      beside t refl refl refl (ground arith) (λ st. absurd (cc)) (λ en. absurd (cc))
  Conduct-Stored {t} (Conduct.join e lt done) =
      beside t refl refl refl (ground arith) (λ st. absurd (cc)) (λ en. absurd (cc))
  Conduct-Stored {t} (Conduct.joined e le) =
      beside t refl refl refl (ground arith) (λ st. absurd (cc)) (λ en. absurd (cc))
  Conduct-Stored (Conduct.clean fuel e run) =
      let old = holds (rw e) in
      record {
        ready = λ st. absurd (cc);
        holds = λ used. absurd (cc);
        over = λ some_there _. ground (arith, old.kept, old.drained 0 some_there, stages.joined 0);
      }

  Step-Stored : {t : System} → Step m q k n s t → Stored n q t
  Step-Stored (act (consume i lt st)) = Consume-Stored i lt st
  Step-Stored (act (provide st)) = Provide-Stored st
  Step-Stored (act (conduct st)) = Conduct-Stored st
  Step-Stored {t} (spurious i lt e) =
      walked m q k n s stages inv i Place.woken t lt refl (ground arith)

pub Reach-Stored :
    {m : Malloc} {q : Ptr} {k n : ℕ} {h : Heap} {s : System}
    → Ready q h
    → Reach m q k n h s
    → Stored n q s
Reach-Stored ready here = record {
  ready = λ _. (ready, refl);
  holds = λ used. absurd (cc);
  over = λ _ en. absurd (cc);
}
Reach-Stored {m} {q} {k} {n} ready (later {s} r st) =
    Step-Stored m q k n s (Reach-Stages r) (Reach-Stored ready r) st

-- Between q_init and q_clean the queue is at rest in every reachable state, however the threads are
-- interleaved, and no node is lost or taken twice: the nodes in it and those that the consumers have
-- taken add up to those stored. Once a consumer has returned the queue is empty.
pub accounted :
    {m : Malloc} {q : Ptr} {k n : ℕ} {h : Heap} {s : System}
    → Ready q h
    → Reach m q k n h s
    → in_use s.main ≡ true
    → Holds n q s
accounted ready r used = (Reach-Stored ready r).holds used

-- When main has returned, with one consumer or more, these have taken as many nodes as were stored:
-- q_clean found none.
pub all_taken :
    {m : Malloc} {q : Ptr} {k n : ℕ} {h : Heap} {s : System}
    → Ready q h
    → Reach m q k n h s
    → 1 ≤ n
    → s.main ≡ Main.returned
    → total got n s.consumers ≡ s.stored
all_taken ready r some_there e = (Reach-Stored ready r).over some_there e

pub Ends-returns :
    {A : Type 0} {P : A → Heap → Type 0} (r : Option (A × Heap))
    → Ends P r
    → (a : A) × (g : Heap) × (r ≡ some (a, g))
Ends-returns r (ends {a} {h} p) = (a, h, refl)

dequeue_ends :
    (h : Heap) (q value : Ptr) (nodes : Nodes)
    → IsQueue h q nodes
    → (ret : Bool) × (g : Heap) × (q_dequeue q value h ≡ some (ret, g))
dequeue_ends h q value [] is = Ends-returns _ (q_dequeue-nil h q value is)
dequeue_ends h q value ((p, d) ∷ nodes) is = Ends-returns _ (q_dequeue-cons h q value p d nodes is)

-- No consumer ever gets stuck in q_dequeue: in every reachable state a call by a consumer that
-- stands at its loop ends, and touches no memory that is not there.
pub dequeue_returns :
    {m : Malloc} {q : Ptr} {k n : ℕ} {h : Heap} {s : System}
    → Ready q h
    → Reach m q k n h s
    → (i : ℕ) → i < n
    → (s.consumers i).place ≡ Place.working
    → (value : Ptr) → (ret : Bool) × (g : Heap) × (q_dequeue q value s.heap ≡ some (ret, g))
dequeue_returns {m} {q} {k} {n} {h} {s} ready r i lt e value =
    let inv = Reach-Stored ready r in
    let old = inv.holds (in_use_working m q k n s (Reach-Stages r) inv i lt e) in
    dequeue_ends s.heap q value old.nodes old.queue
