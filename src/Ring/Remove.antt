-- ===== src/Ring/Remove.antt =====
-- list_remove of c/multi-thread-queue/list.c on a ring.
use code_slices.Base.{
  ℕ, ◌≡◌, ◌≢◌, refl, ◌⊎◌, inl, true, false, [], ◌∷◌, ◌++◌, arith, some, ◌==◌, if◌then◌else◌,
}
use code_slices.Memory.{Ptr, Heap}
use code_slices.Memory.Ends.{Ends, ends, weaken}
use code_slices.Memory.Chain.{Nodes, occurs, occurs-append, Chain, Chain-frame, Ring, SameNodes}
use code_slices.Ring.{is_empty, list_remove}
use code_slices.Ring.Shape.{is_empty_lem}

-- What list_remove writes where the list is not empty.
record Removed (h : Heap) (node : Ptr) (g : Heap) : Type 0 where
  next :
      (b : Ptr)
      → g.next b ≡ (if b == node then node else if b == h.prev node then h.next node else h.next b)
  prev :
      (b : Ptr)
      → g.prev b ≡ (if b == node then node else if b == h.next node then h.prev node else h.prev b)
  same : SameNodes h g

-- Node `p` of a chain, with what stands before it and behind it.
record Inside (h : Heap) (a z p : Ptr) (v : ℕ) (xs ys : Nodes) : Type 0 where
  before : (h.prev p ≡ a) ⊎ (occurs (h.prev p) xs ≡ true)
  behind : (h.next p ≡ z) ⊎ (occurs (h.next p) ys ≡ true)
  live : h.live p ≡ true

next_mem :
    (h : Heap) (p z : Ptr) (ys : Nodes)
    → Chain h p ys z
    → (h.next p ≡ z) ⊎ (occurs (h.next p) ys ≡ true)
next_mem h p z [] c = inl c.0
next_mem h p z ((q, w) ∷ ys) c = ground arith

inside :
    (h : Heap) (a z p : Ptr) (v : ℕ) (xs ys : Nodes)
    → Chain h a (xs ++ (p, v) ∷ ys) z
    → Inside h a z p v xs ys
inside h a z p v [] ys c = record { before = inl c.1; behind = next_mem h p z ys c.5; live = c.3 }
inside h a z p v ((x, u) ∷ xs) ys c =
    let rest = inside h x z p v xs ys c.5 in
    record { before = ground (arith, rest.before); behind = rest.behind; live = rest.live }

module _ (h g : Heap) (list p : Ptr) (v : ℕ) (w : Removed h p g) where
  open w use {next, prev, same}

  -- The node before `p`, at the head of the chain, is joined to what follows.
  joined :
      (a : Ptr) (ys : Nodes)
      → Chain h a ((p, v) ∷ ys) list
      → p ≢ list
      → a ≢ p
      → occurs a ys ≡ false
      → occurs list ys ≡ false
      → Chain g a ys list
  joined a [] c pl ap ay ly = ground (arith, next a, prev list)
  joined a ((q, u) ∷ ys) c pl ap ay ly =
      let rest : Chain g q ys list =
        Chain-frame h g q list ys c.5.5 (ground (arith, next q)) (ground (arith, prev list)) λ b i.
          (
            ground (arith, next b),
            ground (arith, prev b),
            ground (arith, same.payload),
            ground (arith, same.live),
          ) in
      (
        ground (arith, next a),
        ground (arith, prev q),
        ground (arith, same.payload),
        ground (arith, same.live),
        c.5.4,
        rest,
      )

  Removed-Chain :
      (a : Ptr) (xs ys : Nodes)
      → Chain h a (xs ++ (p, v) ∷ ys) list
      → p ≢ list
      → a ≢ p
      → occurs a (xs ++ (p, v) ∷ ys) ≡ false
      → occurs list (xs ++ (p, v) ∷ ys) ≡ false
      → Chain g a (xs ++ ys) list
  Removed-Chain a [] ys c pl ap ay ly = joined a ys c pl ap (ground arith) (ground arith)
  Removed-Chain a ((x, u) ∷ xs) ys c pl ap ay ly =
      let at = inside h x list p v xs ys c.5 in
      let whole = λ (b : Ptr). occurs-append b xs ((p, v) ∷ ys) in
      let xp : occurs x xs ≡ false = ground (arith, whole x) in
      let xq : (x ≢ p) × (occurs x ys ≡ false) = ground (arith, whole x) in
      let aq : (occurs a xs ≡ false) × (a ≢ x) = ground (arith, whole a) in
      let rest = Removed-Chain x xs ys c.5 pl (xq.0) (ground arith) (ground arith) in
      (
        ground (arith, next a, at.before),
        ground (arith, prev x, at.behind),
        ground (arith, same.payload),
        ground (arith, same.live),
        rw occurs-append (ground arith),
        rest,
      )

next-ne :
    (h : Heap) (a z p : Ptr) (v : ℕ) (xs ys : Nodes)
    → Chain h a (xs ++ (p, v) ∷ ys) z
    → occurs z (xs ++ (p, v) ∷ ys) ≡ false
    → h.next a ≢ z
next-ne h a z p v [] ys c out = ground arith
next-ne h a z p v ((x, u) ∷ xs) ys c out = ground arith

pub not_empty :
    (h : Heap) (list : Ptr)
    → h.live list ≡ true
    → h.next list ≢ list
    → is_empty list h ≡ some (false, h)
not_empty h list live ne =
    let no : (if h.prev list == list then h.next list == list else false) ≡ false = ground arith in
    rw (is_empty_lem h list live, no)

pub live_of_occurs :
    (h : Heap) (a z b : Ptr) (xs : Nodes) → Chain h a xs z → occurs b xs ≡ true → h.live b ≡ true
live_of_occurs h a z b [] c i = cc
live_of_occurs h a z b ((x, u) ∷ xs) c i = ground (arith, live_of_occurs h x z b xs c.5)

-- `p` is not the head, and its two neighbours can be written to.
record Removable (h : Heap) (list p : Ptr) : Type 0 where
  ne : p ≢ list
  filled : h.next list ≢ list
  live : h.live p ≡ true
  prev_live : h.live (h.prev p) ≡ true
  next_live : h.live (h.next p) ≡ true

removable :
    (h : Heap) (list p : Ptr) (v : ℕ) (xs ys : Nodes)
    → Ring h list (xs ++ (p, v) ∷ ys)
    → Removable h list p
removable h list p v xs ys ring = record {
  ne = ground (arith, apart, occurs-append list xs ((p, v) ∷ ys));
  filled = next-ne h list list p v xs ys chain apart;
  live = at.live;
  prev_live = among (h.prev p) (ground (arith, at.before));
  next_live = among (h.next p) (ground (arith, at.behind));
}
  where
    open ring use {chain, head_live, head_apart as apart}

    at : Inside h list list p v xs ys
    at = inside h list list p v xs ys chain

    among : (b : Ptr) → (b ≡ list) ⊎ (occurs b xs ≡ true) ⊎ (occurs b ys ≡ true) → h.live b ≡ true
    among b m = ground (
      arith,
      head_live,
      occurs-append b xs ((p, v) ∷ ys),
      live_of_occurs h list list b (xs ++ (p, v) ∷ ys) chain,
    )

list_remove-Removed :
    (h : Heap) (list p : Ptr)
    → h.live list ≡ true
    → Removable h list p
    → Ends (λ r g. (r ≡ p) × Removed h p g) (list_remove list p h)
unfolding list_remove
list_remove-Removed h list p live at =
    rw
      (
        not_empty h list live at.filled,
        at.live,
        at.live,
        at.prev_live,
        at.next_live,
        at.live,
        at.live,
      )
      (ends (
        refl,
        record {
          next = ground arith;
          prev = ground arith;
          same = record { live = refl; payload = refl; lock = refl; word = refl; printed = refl };
        },
      ))

-- On a ring list_remove takes out the node it is given, wherever it stands, and returns it linked to
-- itself; the other nodes keep their order, and nothing but links changes.
pub list_remove-append :
    (h : Heap) (list p : Ptr) (v : ℕ) (xs ys : Nodes)
    → Ring h list (xs ++ (p, v) ∷ ys)
    → Ends
        (λ r g. (r ≡ p) × Ring g list (xs ++ ys) × (g.next p ≡ p) × (g.prev p ≡ p) × SameNodes h g)
        (list_remove list p h)
unfolding list_remove
list_remove-append h list p v xs ys ring =
    let at = removable h list p v xs ys ring in
    weaken (list_remove-Removed h list p ring.head_live at) λ r g (e, w). (
      e,
      record {
        head_live = ground (arith, w.same.live, ring.head_live);
        head_apart =
            ground (
              arith,
              ring.head_apart,
              occurs-append list xs ((p, v) ∷ ys),
              occurs-append list xs ys,
            );
        chain =
            Removed-Chain h g list p v w list xs ys ring.chain at.ne (ground (arith, at.ne))
              ring.head_apart ring.head_apart;
      },
      ground (arith, w.next p),
      ground (arith, w.prev p),
      w.same,
    )
