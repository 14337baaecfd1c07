-- ===== src/Ring/Add.antt =====
-- list_init, list_new and list_add of c/multi-thread-queue/list.c on a ring.
use code_slices.Base.{
  ℕ, ◌≡◌, ◌≢◌, refl, inl, inr, true, false, [], ◌∷◌, ◌++◌, arith, ◌==◌, if◌then◌else◌, Bool-cases,
}
use code_slices.Memory.{Ptr, Heap}
use code_slices.Memory.Ends.{Ends, ends, weaken}
use code_slices.Memory.Chain.{Nodes, occurs, occurs-append, Chain, Ring, SameNodes}
use code_slices.Ring.Shape.{prev_mem, last-live, next_of_prev, is_empty_lem}
use code_slices.Ring.{list_add, add_first, add_last}

-- What list_add writes, `t` being the last node before.
record Added (h : Heap) (list node : Ptr) (g : Heap) : Type 0 where
  next :
      (a : Ptr)
      → g.next a ≡ (if a == node then list else if a == h.prev list then node else h.next a)
  prev :
      (a : Ptr)
      → g.prev a ≡ (if a == list then node else if a == node then h.prev list else h.prev a)
  same : SameNodes h g

module _ (h : Heap) (list node : Ptr) (hl : h.live list ≡ true) (hn : h.live node ≡ true) where
  add_first-Added :
      h.prev list ≡ list → Ends (λ r g. (r ≡ list) × Added h list node g) (add_first list node h)
  unfolding add_first
  add_first-Added e =
      rw (hl, hl, hn, hn)
        (ends (
          refl,
          record {
            next = ground arith;
            prev = ground arith;
            same = record { live = refl; payload = refl; lock = refl; word = refl; printed = refl };
          },
        ))

  add_last-Added :
      h.live (h.prev list) ≡ true
      → Ends (λ r g. (r ≡ list) × Added h list node g) (add_last list node h)
  unfolding add_last
  add_last-Added ht =
      rw (hl, ht, hl, hn, hn, hl)
        (ends (
          refl,
          record {
            next = ground arith;
            prev = ground arith;
            same = record { live = refl; payload = refl; lock = refl; word = refl; printed = refl };
          },
        ))

  list_add-Added :
      h.live (h.prev list) ≡ true
      → (h.prev list ≡ list → h.next list ≡ list)
      → Ends (λ r g. (r ≡ list) × Added h list node g) (list_add list node h)
  unfolding list_add
  list_add-Added ht e = rw (is_empty_lem h list hl) (elim (Bool-cases (h.prev list == list)) [
    | inl b ↦
        let self : h.prev list ≡ list = ground arith in
        let both : (if h.prev list == list then h.next list == list else false) ≡ true =
          ground (arith, e self) in
        rw both (add_first-Added self)
    | inr b ↦ rw b (add_last-Added ht)
  ])

-- A chain whose last node is `t` is extended by `node`.
Added-Chain :
    (h g : Heap) (list node a z : Ptr) (v : ℕ) (xs : Nodes)
    → Added h list node g
    → Chain h a xs list
    → g.payload node ≡ v
    → occurs a xs ≡ false
    → occurs node xs ≡ false
    → a ≢ node
    → occurs list xs ≡ false
    → node ≢ list
    → h.live node ≡ true
    → Chain g a (xs ++ (node, v) ∷ []) list
Added-Chain h g list node a z v [] w c pv ax nx an lx nl ln =
    ground (arith, w.next a, w.next node, w.prev node, w.prev list)
Added-Chain h g list node a z v ((p, u) ∷ xs) w c pv ax nx an lx nl ln = ground (
  arith,
  w.next a,
  w.prev p,
  prev_mem h p list xs,
  occurs-append p xs ((node, v) ∷ []),
  Added-Chain h g list node p z v xs w c.5,
)

pub list_add-append :
    (h : Heap) (list node : Ptr) (xs : Nodes)
    → Ring h list xs
    → h.live node ≡ true
    → node ≢ list
    → occurs node xs ≡ false
    → Ends
        (λ r g. (r ≡ list) × Ring g list (xs ++ (node, h.payload node) ∷ []) × SameNodes h g)
        (list_add list node h)
list_add-append h list node xs ring live ne out =
    weaken (list_add-Added h list node ring.head_live live last_live self) λ r g (e, w). (
      e,
      record {
        head_live = rw w.same.live ring.head_live;
        head_apart = rw occurs-append (ground arith);
        chain =
            Added-Chain h g list node list list (h.payload node) xs w ring.chain (rw w.same.payload)
              ring.head_apart out (ground arith) ring.head_apart ne live;
      },
      w.same,
    )
  where
    last_live : h.live (h.prev list) ≡ true
    last_live = last-live h list list xs ring.head_live ring.chain

    self : h.prev list ≡ list → h.next list ≡ list
    self = next_of_prev h list xs ring.head_apart ring.chain
