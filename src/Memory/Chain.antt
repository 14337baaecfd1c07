-- ===== src/Memory/Chain.antt =====
-- The shape of a doubly linked list in memory: a chain of cells between two pointers, and a ring,
-- which is a chain from the list's own node back to it.
use code_slices.Base.{ℕ, ◌≡◌, refl, ◌∙◌, Bool, true, false, ◌||◌, List, [], ◌∷◌, ◌++◌, arith, ◌==◌}
use code_slices.Memory.{Ptr, Heap}

-- Address and `data` of each node, in order.
abbrev pub Nodes : Type 0
Nodes = List (Ptr × ℕ)

abbrev pub occurs : Ptr → Nodes → Bool
occurs a [] = false
occurs a ((p, _) ∷ xs) = (a == p) || occurs a xs

abbrev pub Chain : Heap → Ptr → Nodes → Ptr → Type 0
Chain h a [] z = (h.next a ≡ z) × (h.prev z ≡ a)
Chain h a ((p, v) ∷ xs) z =
    (h.next a ≡ p)
    × (h.prev p ≡ a)
    × (h.payload p ≡ v)
    × (h.live p ≡ true)
    × (occurs p xs ≡ false)
    × Chain h p xs z

pub record Ring (h : Heap) (list : Ptr) (xs : Nodes) : Type 0 where
  pub head_live : h.live list ≡ true
  pub head_apart : occurs list xs ≡ false
  pub chain : Chain h list xs list

pub occurs-append : (a : Ptr) (xs ys : Nodes) → occurs a (xs ++ ys) ≡ (occurs a xs || occurs a ys)
occurs-append a [] ys = refl
occurs-append a ((p, v) ∷ xs) ys = ground (arith, occurs-append a xs ys)

-- The two memories differ in links only.
pub record SameNodes (h g : Heap) : Type 0 where
  pub live : g.live ≡ h.live
  pub payload : g.payload ≡ h.payload
  pub lock : g.lock ≡ h.lock
  pub word : g.word ≡ h.word
  pub printed : g.printed ≡ h.printed

abbrev pub SameAt : Heap → Heap → Ptr → Type 0
SameAt h g b =
    (g.next b ≡ h.next b)
    × (g.prev b ≡ h.prev b)
    × (g.payload b ≡ h.payload b)
    × (g.live b ≡ h.live b)

-- A chain survives a change that spares its nodes and its two ends.
pub Chain-frame :
    (h g : Heap) (a z : Ptr) (xs : Nodes)
    → Chain h a xs z
    → g.next a ≡ h.next a
    → g.prev z ≡ h.prev z
    → ((b : Ptr) → occurs b xs ≡ true → SameAt h g b)
    → Chain g a xs z
Chain-frame h g a z [] c ea ez same = (ea ∙ c.0, ez ∙ c.1)
Chain-frame h g a z ((p, v) ∷ xs) c ea ez same =
    let (n, b, d, l) = same p (ground arith) in
    (
      ea ∙ c.0,
      b ∙ c.1,
      d ∙ c.2,
      l ∙ c.3,
      c.4,
      Chain-frame h g p z xs c.5 n ez λ q i. same q (ground arith),
    )
