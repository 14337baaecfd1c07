-- ===== src/Atomic/Calls.antt =====
-- A single call of the queue of c/multi-thread-queue: its script, the command, and what it does to an
-- abstract list.
use code_slices.Base.{ℕ, ◌≡◌, refl, Bool, true, false, Option, none, some, List, [], ◌∷◌, ◌++◌}
use code_slices.Memory.{Ptr, Heap, Cmd, and_then, Malloc}
use code_slices.Memory.Ends.{Ends, ends}
use code_slices.Memory.Mutex.{with_lock, lock_free, unlock_held}
use code_slices.Memory.Chain.{Nodes}
use code_slices.Queue as Queue
use code_slices.Queue.Enqueue.{IsQueue}
use code_slices.Queue.Fifo.{
  Call, enqueue, dequeue, run, Fifo, done, put, refused, empty, taken, values, Refines, run-Fifo,
}
use code_slices.Atomic.{Script, lock, access, leave, script_of}
use code_slices.Atomic.Models.{exec}
use code_slices.Atomic.Listing.{Whole, q_enqueue-Whole, q_dequeue-Whole}

-- The call in one go.
unfoldable pub cmd_of : Malloc → Ptr → Call → Cmd Bool
cmd_of m q (enqueue d) = Queue.q_enqueue m q d
cmd_of m q (dequeue target) = Queue.q_dequeue q target

pub script_of-Whole : (m : Malloc) (q : Ptr) (c : Call) → Whole q (script_of m q c) (cmd_of m q c)
unfolding script_of cmd_of
script_of-Whole m q (enqueue d) = q_enqueue-Whole q m d
script_of-Whole m q (dequeue target) = q_dequeue-Whole q target

pub Fifo-append :
    {us vs ws : List ℕ} {calls more : List Call} {bs cs : List Bool}
    → Fifo us calls bs vs
    → Fifo vs more cs ws
    → Fifo us (calls ++ more) (bs ++ cs) ws
Fifo-append (done _) f = f
Fifo-append (put e) f = put (Fifo-append e f)
Fifo-append (refused e) f = refused (Fifo-append e f)
Fifo-append (empty e) f = empty (Fifo-append e f)
Fifo-append (taken e) f = taken (Fifo-append e f)

-- The first of a sequence of one.
Ends-alone :
    {P : List Bool → Heap → Type 0} (r : Option (Bool × Heap))
    → Ends P (and_then r λ b h. some (b ∷ [], h))
    → Ends (λ b h. P (b ∷ []) h) r
Ends-alone none e = elim e [ ]
Ends-alone (some (b, h)) (ends p) = ends p

pub call-Fifo :
    (m : Malloc) (q : Ptr) (c : Call) (h : Heap) (xs : Nodes)
    → IsQueue h q xs
    → Ends (λ b g. Refines q (values xs) (c ∷ []) (b ∷ []) g) (cmd_of m q c h)
unfolding run cmd_of
call-Fifo m q (enqueue d) h xs is =
    Ends-alone (Queue.q_enqueue m q d h) (run-Fifo m q (enqueue d ∷ []) h xs is)
call-Fifo m q (dequeue t) h xs is =
    Ends-alone (Queue.q_dequeue q t h) (run-Fifo m q (dequeue t ∷ []) h xs is)

pub exec-lock :
    (q : Ptr) (r : Script) (h : Heap)
    → h.lock q ≡ some false
    → exec q (lock r) h ≡ exec q r (with_lock h q (some true))
unfolding exec
exec-lock q r h free = rw (lock_free q h free) refl

pub exec-leave :
    (q : Ptr) (ret : Bool) (h : Heap)
    → h.lock q ≡ some true
    → exec q (leave ret) h ≡ some (ret, with_lock h q (some false))
unfolding exec
exec-leave q ret h held = rw (unlock_held q h held) refl

pub exec-access :
    (q : Ptr) (step : Heap → Option Heap) (next : Heap → Script) (h g : Heap)
    → step h ≡ some g
    → exec q (access step next) h ≡ exec q (next h) g
unfolding exec
exec-access q step next h g e = rw e refl

pub at_end :
    {P : Bool → Heap → Type 0} {b : Bool} {h : Heap} {r : Option (Bool × Heap)}
    → some (b, h) ≡ r
    → Ends P r
    → P b h
at_end {P = P} {b = b} {h = h} e end = Ends-some (rw e end)
  where
    Ends-some : Ends P (some (b, h)) → P b h
    Ends-some (ends p) = p
