-- ===== src/Queue/Dequeue.antt =====
-- q_dequeue and q_clean of c/multi-thread-queue/queue.c.
use code_slices.Base.{
  ℕ, zero, suc, ◌<◌, ◌≡◌, ◌≢◌, refl, ◌∙◌, true, false, none, some, [], ◌∷◌, arith, ◌==◌,
  if◌then◌else◌, length, Bool-cases, inl, inr,
}
use code_slices.Memory.{Ptr, null, Heap}
use code_slices.Memory.Mutex.{lock_free, unlock_held, destroy_free}
use code_slices.Memory.Ends.{Ends, ends, weaken, Ends-then}
use code_slices.Memory.Chain.{Nodes, occurs, Ring}
use code_slices.Ring.Remove.{list_remove-append, not_empty}
use code_slices.Ring.Shape.{is_empty_lem}
use code_slices.Queue.{q_dequeue, clean_loop, q_clean, take_first, assign_data}
use code_slices.Queue.Node.{Ring-frame, Ring-with_lock, list_free-gone}
use code_slices.Queue.Enqueue.{IsQueue, locked, locked-held}

module _ (h : Heap) (q target : Ptr) where
  -- On an empty queue q_dequeue says so and leaves it empty.
  pub q_dequeue-nil :
      IsQueue h q []
      → Ends
          (λ b g. (b ≡ false) × IsQueue g q [] × (g.live ≡ h.live) × (g.word ≡ h.word))
          (q_dequeue q target h)
  unfolding q_dequeue
  q_dequeue-nil is =
      let yes_empty : (if h.prev q == q then h.next q == q else false) ≡ true =
        ground (arith, is.ring.chain) in
      rw
        (
          lock_free q h is.unlocked,
          is_empty_lem (locked h q) q is.ring.head_live,
          yes_empty,
          unlock_held q (locked h q) (locked-held h q),
        )
        (ends (
          refl,
          record {
            ring =
                Ring-with_lock (locked h q) q q (some false) []
                  (Ring-with_lock h q q (some true) [] is.ring);
            unlocked = ground arith;
            null_free = is.null_free;
          },
          refl,
          refl,
        ))

assign_data_lem :
    (target p : Ptr) (h : Heap)
    → h.live p ≡ true
    → assign_data target p h ≡ some ((if target == null then target else h.payload p), h)
unfolding assign_data
assign_data_lem target p h live = elim (Bool-cases (target == null)) [
  | inl yes_null ↦ rw yes_null
  | inr no_null ↦ rw (no_null, live)
]

-- After a q_dequeue that took node `p`: the node is free and the memory is otherwise as it was, also
-- the variable that the caller passed a pointer to.
pub record Taken (h : Heap) (p : Ptr) (g : Heap) : Type 0 where
  pub freed : g.live p ≡ false
  pub live : (b : Ptr) → b ≢ p → g.live b ≡ h.live b
  pub word : g.word ≡ h.word

module _ (h : Heap) (q target p : Ptr) (d : ℕ) (xs : Nodes) (is : IsQueue h q ((p, d) ∷ xs)) where
  open is use {ring, unlocked, null_free}

  -- q_dequeue takes the first node out of the queue and frees it, and leaves the rest in order.
  pub q_dequeue-cons :
      Ends (λ b g. (b ≡ true) × IsQueue g q xs × Taken h p g) (q_dequeue q target h)
  unfolding q_dequeue take_first
  q_dequeue-cons =
      rw
        (
          lock_free q h unlocked,
          not_empty (locked h q) q ring.head_live filled,
          ring.head_live,
          ring.chain.0,
        )
        (Ends-then
          (list_remove-append (locked h q) q p d [] xs
            (Ring-with_lock h q q (some true) ((p, d) ∷ xs) ring))
          λ r k (er, shorter, _, _, nodes).
            let p_live : k.live p ≡ true = ground (arith, nodes.live, ring.chain) in
            let r_live : k.live r ≡ true = ground arith in
            rw (assign_data_lem target r k r_live) (
              Ends-then (list_free-gone r k (ground (arith, nodes.live, null_free, p_live)) r_live)
                λ _ g (freed, same).
                  let held : g.lock q ≡ some true = ground (arith, same.lock, nodes.lock) in
                  rw (unlock_held q g held) (
                    ends (
                      refl,
                      record {
                        ring = Ring-with_lock g q q (some false) xs (
                            Ring-frame r k g q xs same (ground (arith, ring.head_apart))
                              (ground (arith, ring.chain)) shorter);
                        unlocked = ground arith;
                        null_free = ground (arith, same.live null, nodes.live, null_free, p_live);
                      },
                      record {
                        freed = ground arith;
                        live = λ b ne. ground (arith, same.live b, nodes.live);
                        word = same.word ∙ nodes.word;
                      },
                    ))))
    where
      filled : (locked h q).next q ≢ q
      filled = ground (arith, ring.chain, ring.head_apart)

-- What q_clean leaves: no node of the queue, and its mutex destroyed.
abbrev pub Cleaned : Heap → Ptr → Nodes → Heap → Type 0
Cleaned h q xs g =
    ((b : Ptr) → g.live b ≡ (if occurs b xs then false else h.live b))
    × Ring g q []
    × (g.lock q ≡ none)
    × (g.word ≡ h.word)

-- The `while` of q_clean ends once its fuel exceeds the nodes.
clean_loop-nil :
    (fuel : ℕ) (h : Heap) (q : Ptr) (xs : Nodes)
    → IsQueue h q xs
    → length xs < fuel
    → Ends
        (λ _ g.
          ((b : Ptr) → g.live b ≡ (if occurs b xs then false else h.live b))
          × IsQueue g q []
          × (g.word ≡ h.word))
        (clean_loop fuel q h)
unfolding clean_loop
clean_loop-nil zero h q xs is enough = elim enough [ ]
clean_loop-nil (suc fuel) h q [] is enough =
    Ends-then (q_dequeue-nil h q null is)
      λ b g (e, rest, live, word). rw e (ends (λ c. ground (arith, live), rest, word))
clean_loop-nil (suc fuel) h q ((p, d) ∷ xs) is enough =
    Ends-then (q_dequeue-cons h q null p d xs is) λ b g (e, rest, taken). rw e (
      weaken (clean_loop-nil fuel g q xs rest (omega arith)) λ _ k (gone, empty, word). (
        λ c. ground (arith, gone c, taken.live c, taken.freed, is.ring.chain),
        empty,
        word ∙ taken.word,
      ))

-- Given more fuel than nodes, q_clean ends: it frees each node of the queue once and no other, and
-- destroys the mutex.
pub q_clean-Cleaned :
    (fuel : ℕ) (h : Heap) (q : Ptr) (xs : Nodes)
    → IsQueue h q xs
    → length xs < fuel
    → Ends (λ _ g. Cleaned h q xs g) (q_clean fuel q h)
unfolding q_clean
q_clean-Cleaned fuel h q xs is enough =
    Ends-then (clean_loop-nil fuel h q xs is enough) λ _ g (gone, empty, word).
      rw (destroy_free q g empty.unlocked)
        (ends (gone, Ring-with_lock g q q none [] empty.ring, ground arith, word))
