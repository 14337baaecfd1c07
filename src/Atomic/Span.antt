-- ===== src/Atomic/Span.antt =====
-- How many steps a call of c/multi-thread-queue takes at most.
use code_slices.Base.{
  ℕ, ◌+◌, ◌≤◌, ◌<◌, Bool, true, false, Option, none, some, ◌==◌, if◌then◌else◌, arith,
}
use code_slices.Memory.{Ptr, null, Heap, Cmd, load_next}
use code_slices.Atomic.{
  Script, returns, lock, unlock, access, Code, single, pure, ◌>>=◌, ◌>>◌, next_of, leave, is_empty,
  list_remove, list_free, assign_data, take_first, q_dequeue,
}

-- At most `steps` from here to the step that gives the mutex back.
abbrev pub Within : ℕ → Script → Type 0
Within steps (returns ret) = Unit {0}
Within steps (lock r) = (fewer : ℕ) × (fewer < steps) × Within fewer r
Within steps (unlock r) = 0 < steps
Within steps (access step next) =
    (fewer : ℕ) × (fewer < steps) × ((h : Heap) → Within fewer (next h))

Within-mono : (r : Script) {a b : ℕ} → a ≤ b → Within a r → Within b r
Within-mono (returns ret) le inside = tt
Within-mono (lock r) le (fewer, lt, inside) = (fewer, omega arith, inside)
Within-mono (unlock r) le lt = omega arith
Within-mono (access step next) le (fewer, lt, inside) = (fewer, omega arith, inside)

-- The code takes at most `steps` before what follows it.
record Takes {A : Type 0} (steps : ℕ) (c : Code A) : Type 0 where
  within : (k : A → Script) (rest : ℕ) → ((a : A) → Within rest (k a)) → Within (steps + rest) (c k)

next_of-Within :
    {A : Type 0} (r : Option (A × Heap)) (k : A → Script) (rest : ℕ)
    → ((a : A) → Within rest (k a))
    → Within rest (next_of r k)
next_of-Within none k rest inside = tt
next_of-Within (some (a, h)) k rest inside = inside a

single-Takes : {A : Type 0} (m : Cmd A) → Takes 1 (single m)
unfolding single
single-Takes m = record {
  within = λ k rest inside. (rest, omega arith, λ h. next_of-Within (m h) k rest inside);
}

pure-Takes : {A : Type 0} (steps : ℕ) (a : A) → Takes steps (pure a)
pure-Takes steps a = record { within = λ k rest inside. Within-mono (k a) (omega arith) (inside a) }

bind-Takes :
    {A B : Type 0} {v w : ℕ} {c : Code A} {d : A → Code B}
    → Takes v c
    → ((a : A) → Takes w (d a))
    → Takes (v + w) (c >>= d)
bind-Takes {v = v} {w = w} {c = c} {d = d} first rests = record {
  within = λ k rest inside.
      Within-mono (c (λ a. d a k)) (omega arith)
        (first.within (λ a. d a k) (w + rest) (λ a. (rests a).within k rest inside));
}

sequel :
    {A B : Type 0} {v w : ℕ} {c : Code A} {d : Code B}
    → Takes v c
    → Takes w d
    → Takes (v + w) (c >> d)
sequel first second = bind-Takes first λ _. second

if-Takes :
    {A : Type 0} (b : Bool) {steps : ℕ} {c d : Code A}
    → Takes steps c
    → Takes steps d
    → Takes steps (if b then c else d)
if-Takes true first second = first
if-Takes false first second = second

is_empty-Takes : (list : Ptr) → Takes 2 (is_empty list)
unfolding is_empty
is_empty-Takes list =
    bind-Takes (single-Takes _) λ prev. bind-Takes (single-Takes _) λ next. pure-Takes 0 _

list_remove-Takes : (list node : Ptr) → Takes 8 (list_remove list node)
unfolding list_remove
list_remove-Takes list node = bind-Takes (is_empty-Takes list) λ empty.
    if-Takes empty (pure-Takes 6 node) (
      bind-Takes (single-Takes _) λ prev. bind-Takes (single-Takes _) λ next.
        sequel (single-Takes _) (
          sequel (single-Takes _)
            (sequel (single-Takes _) (sequel (single-Takes _) (pure-Takes 0 node)))))

assign_data-Takes : (target list : Ptr) → Takes 1 (assign_data target list)
unfolding assign_data
assign_data-Takes target list = if-Takes (target == null) (pure-Takes 1 target) (single-Takes _)

list_free-Takes : (node : Ptr) → Takes 4 (list_free node)
unfolding list_free
list_free-Takes node =
    if-Takes (node == null) (pure-Takes 4 tt)
      (sequel (single-Takes _) (sequel (single-Takes _) (sequel (single-Takes _) (single-Takes _))))

take_first-Within : (q target : Ptr) → Within 15 (take_first q target)
unfolding take_first
take_first-Within q target =
    let freed : (list : Ptr) → Within 5 (list_free list λ _. leave true) =
      λ list. (list_free-Takes list).within (λ _. leave true) 1 (λ _. omega arith) in
    let assigned : (list : Ptr)
        → Within 6 (assign_data target list λ _. list_free list λ _. leave true) =
      λ list. (assign_data-Takes target list).within _ 5 (λ _. freed list) in
    let first = single-Takes (load_next q) in
    first.within _ 14 λ node. (list_remove-Takes q node).within _ 6 assigned

either-Within :
    (b : Bool) (steps : ℕ) (r s : Script)
    → Within steps r
    → Within steps s
    → Within steps (if b then r else s)
either-Within true steps r s first second = first
either-Within false steps r s first second = second

pub q_dequeue-Within : (q target : Ptr) → Within 18 (q_dequeue q target)
unfolding q_dequeue
q_dequeue-Within q target = (
  17,
  omega arith,
  (is_empty-Takes q).within _ 15 λ empty.
      either-Within empty 15 (leave false) (take_first q target) (omega arith)
        (take_first-Within q target),
)
