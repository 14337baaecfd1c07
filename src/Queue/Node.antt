-- ===== src/Queue/Node.antt =====
-- The making and freeing of nodes beside a ring: list_new and list_free of list.c.
use code_slices.Base.{ℕ, ◌≡◌, ◌≢◌, refl, ◌∙◌, Bool, true, false, Option, arith, some, ◌==◌}
use code_slices.Memory.{Ptr, null, Heap, Malloc}
use code_slices.Memory.Mutex.{with_lock}
use code_slices.Memory.Ends.{Ends, ends}
use code_slices.Memory.Chain.{Nodes, occurs, Chain-frame, Ring}
use code_slices.Ring.{list_new, list_free}

-- The nodes other than `p` are as they were, and nothing but nodes changed.
pub record SameBut (p : Ptr) (h g : Heap) : Type 0 where
  pub next : (b : Ptr) → b ≢ p → g.next b ≡ h.next b
  pub prev : (b : Ptr) → b ≢ p → g.prev b ≡ h.prev b
  pub payload : (b : Ptr) → b ≢ p → g.payload b ≡ h.payload b
  pub live : (b : Ptr) → b ≢ p → g.live b ≡ h.live b
  pub lock : g.lock ≡ h.lock
  pub word : g.word ≡ h.word
  pub printed : g.printed ≡ h.printed

pub Ring-frame :
    (p : Ptr) (h g : Heap) (list : Ptr) (xs : Nodes)
    → SameBut p h g
    → list ≢ p
    → occurs p xs ≡ false
    → Ring h list xs
    → Ring g list xs
Ring-frame p h g list xs same ne out ring = record {
  head_live = same.live list ne ∙ ring.head_live;
  head_apart = ring.head_apart;
  chain = Chain-frame h g list list xs ring.chain (same.next list ne) (same.prev list ne) λ b i.
      let other : b ≢ p = ground arith in
      (same.next b other, same.prev b other, same.payload b other, same.live b other);
}

-- The lock is no part of a ring.
pub Ring-with_lock :
    (h : Heap) (q list : Ptr) (s : Option Bool) (xs : Nodes)
    → Ring h list xs
    → Ring (with_lock h q s) list xs
Ring-with_lock h q list s xs ring = record {
  head_live = ring.head_live;
  head_apart = ring.head_apart;
  chain =
      Chain-frame h (with_lock h q s) list list xs ring.chain refl refl
        λ b i. (refl, refl, refl, refl);
}

pub list_new-fresh :
    (m : Malloc) (d : ℕ) (h : Heap)
    → m.address h ≢ null
    → Ends
        (λ p g. (p ≡ m.address h) × (g.live p ≡ true) × (g.payload p ≡ d) × SameBut p h g)
        (list_new m d h)
unfolding list_new
list_new-fresh m d h ne =
    let there : (m.address h == null) ≡ false = ground arith in
    let self : (m.address h == m.address h) ≡ true = ground arith in
    rw (there, there, self, self, self, self)
      (ends (
        refl,
        ground arith,
        ground arith,
        record {
          next = λ b ne. ground arith;
          prev = λ b ne. ground arith;
          payload = λ b ne. ground arith;
          live = λ b ne. ground arith;
          lock = refl;
          word = refl;
          printed = refl;
        },
      ))

pub list_new-null :
    (m : Malloc) (d : ℕ) (h : Heap) → m.address h ≡ null → list_new m d h ≡ some (null, h)
unfolding list_new
list_new-null m d h e = rw e

pub list_free-gone :
    (p : Ptr) (h : Heap)
    → p ≢ null
    → h.live p ≡ true
    → Ends (λ _ g. (g.live p ≡ false) × SameBut p h g) (list_free p h)
unfolding list_free
list_free-gone p h ne live =
    let there : (p == null) ≡ false = ground arith in
    rw (there, live, live, live, live)
      (ends (
        ground arith,
        record {
          next = λ b ne. ground arith;
          prev = λ b ne. ground arith;
          payload = λ b ne. ground arith;
          live = λ b ne. ground arith;
          lock = refl;
          word = refl;
          printed = refl;
        },
      ))
