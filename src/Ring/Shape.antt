-- ===== src/Ring/Shape.antt =====
-- What a ring of c/multi-thread-queue/list.c looks like from its head.
use code_slices.Base.{◌≡◌, ◌⊎◌, inl, true, false, [], ◌∷◌, arith, ◌==◌, if◌then◌else◌, some}
use code_slices.Memory.{Ptr, Heap}
use code_slices.Memory.Chain.{Nodes, occurs, Chain}
use code_slices.Ring.{is_empty}

-- The last node of a chain is the one that `prev` of its end names.
pub prev_mem :
    (h : Heap) (a z : Ptr) (xs : Nodes)
    → Chain h a xs z
    → (h.prev z ≡ a) ⊎ (occurs (h.prev z) xs ≡ true)
prev_mem h a z [] c = inl c.1
prev_mem h a z ((p, v) ∷ xs) c = ground (arith, prev_mem h p z xs c.5)

pub last-live :
    (h : Heap) (a z : Ptr) (xs : Nodes)
    → h.live a ≡ true
    → Chain h a xs z
    → h.live (h.prev z) ≡ true
last-live h a z [] live c = rw c.1 live
last-live h a z ((p, v) ∷ xs) live c = last-live h p z xs c.3 c.5

-- The two halves of LIST_IS_EMPTY agree on a ring.
pub next_of_prev :
    (h : Heap) (list : Ptr) (xs : Nodes)
    → occurs list xs ≡ false
    → Chain h list xs list
    → h.prev list ≡ list
    → h.next list ≡ list
next_of_prev h list [] out c e = c.0
next_of_prev h list ((p, v) ∷ xs) out c e = ground (arith, prev_mem h p list xs)

pub is_empty_lem :
    (h : Heap) (list : Ptr)
    → h.live list ≡ true
    → is_empty list h ≡ some ((if h.prev list == list then h.next list == list else false), h)
unfolding is_empty
is_empty_lem h list live = rw (live, live)
