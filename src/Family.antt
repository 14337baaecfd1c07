-- ===== src/Family.antt =====
-- Families indexed by a thread's number: a change at one index, and the sum of a weight over the
-- first `n`.
use code_slices.Base.{
  ℕ, zero, suc, ◌+◌, ◌*◌, ◌≤◌, ◌<◌, ◌≡◌, ◌≢◌, ℕ_discrete, ◌⊎◌, inl, inr, refl, arith, ◌==◌,
  if◌then◌else◌, dec_lt,
}

abbrev pub update {ℓ} : {A : Type ℓ} → (ℕ → A) → ℕ → A → ℕ → A
update f i a j = if j == i then a else f j

module _ {ℓ} {A : Type ℓ} (f : ℕ → A) where
  pub update-same : (i : ℕ) (a : A) → update f i a i ≡ a
  update-same i a = ground arith

  pub update-other : (i j : ℕ) (a : A) → j ≢ i → update f i a j ≡ f j
  update-other i j a ne = ground arith

  -- What holds of the new member and of the others holds of all.
  pub update_each {ℓp} :
      (P : A → Type ℓp) (i j : ℕ) (a : A) → (j ≢ i → P (f j)) → P a → P (update f i a j)
  update_each P i j a other mine = elim (ℕ_discrete j i) [
    | yes e ↦ rw (e, update-same i a) mine
    | no ne ↦ rw (update-other i j a ne) (other ne)
  ]

module _ {ℓ} {A : Type ℓ} (w : A → ℕ) where
  pub total : ℕ → (ℕ → A) → ℕ
  total zero f = 0
  total (suc n) f = w (f n) + total n f

  total_beyond : (n i : ℕ) (f : ℕ → A) (a : A) → n ≤ i → total n (update f i a) ≡ total n f
  unfolding total
  total_beyond zero i f a far = refl
  total_beyond (suc n) i f a far = ground (arith, total_beyond n i f a)

  -- A change at one index trades the old weight for the new.
  pub total-update :
      (n i : ℕ) (f : ℕ → A) (a : A) → i < n → total n (update f i a) + w (f i) ≡ total n f + w a
  unfolding total
  total-update zero i f a lt = elim lt [ ]
  total-update (suc n) i f a lt = elim (dec_lt i n) [
    | yes below ↦ ground (arith, total-update n i f a below)
    | no last ↦ ground (arith, total_beyond n i f a)
  ]

  pub total-le : (n : ℕ) (f : ℕ → A) → ((a : A) → w a ≤ 1) → total n f ≤ n
  unfolding total
  total-le zero f one = omega arith
  total-le (suc n) f one = omega (arith, one (f n), total-le n f one)

  -- Fewer than `n` in all: some index has weight 0.
  pub total-lt : (n : ℕ) (f : ℕ → A) → total n f < n → (i : ℕ) × (i < n) × (w (f i) ≡ 0)
  unfolding total
  total-lt zero f lt = elim lt [ ]
  total-lt (suc n) f lt = elim (dec_lt 0 (w (f n))) [
    | yes weighs ↦ let (i, below, e) = total-lt n f (omega arith) in (i, omega arith, e)
    | no light ↦ (n, omega arith, omega arith)
  ]

  pub total-eq-zero : (n : ℕ) (f : ℕ → A) → ((i : ℕ) → i < n → w (f i) ≡ 0) → total n f ≡ 0
  unfolding total
  total-eq-zero zero f none_weighs = refl
  total-eq-zero (suc n) f none_weighs =
      omega (
        arith,
        none_weighs n (omega arith),
        total-eq-zero n f (λ i lt. none_weighs i (omega arith)),
      )

  -- Search by weight.
  pub find_weight :
      (n : ℕ) (f : ℕ → A) → ((i : ℕ) × (i < n) × (0 < w (f i))) ⊎ ((i : ℕ) → i < n → w (f i) ≡ 0)
  find_weight zero f = inr λ i lt. elim lt [ ]
  find_weight (suc n) f = elim (dec_lt 0 (w (f n))) [
    | yes weighs ↦ inl (n, omega arith, weighs)
    | no light ↦ elim (find_weight n f) [
      | inl (i, lt, p) ↦ inl (i, omega arith, p)
      | inr all ↦ inr λ i lt. elim (dec_lt i n) [
        | yes below ↦ all i below
        | no last ↦ (let e : i ≡ n = omega arith in rw e (omega arith))
      ]
    ]
  ]

  pub total_ext :
      (n : ℕ) (f g : ℕ → A) → ((i : ℕ) → i < n → w (f i) ≡ w (g i)) → total n f ≡ total n g
  unfolding total
  total_ext zero f g same = refl
  total_ext (suc n) f g same =
      omega (arith, same n (omega arith), total_ext n f g (λ i lt. same i (omega arith)))

  -- `n` in all, with weights of at most 1: every index has weight 1.
  pub total_full :
      (n : ℕ) (f : ℕ → A) → ((a : A) → w a ≤ 1) → n ≤ total n f → (i : ℕ) → i < n → w (f i) ≡ 1
  unfolding total
  total_full zero f one full i lt = elim lt [ ]
  total_full (suc n) f one full i lt = elim (dec_lt i n) [
    | yes below ↦ total_full n f one (omega (arith, one (f n))) i below
    | no last ↦ (let e : i ≡ n = omega arith in rw e (omega (arith, one (f n), total-le n f one)))
  ]

  -- No weight grows by more than `d`.
  pub total_grows :
      (n d : ℕ) (f g : ℕ → A) → ((i : ℕ) → w (g i) ≤ w (f i) + d) → total n g ≤ total n f + n * d
  unfolding total
  total_grows zero d f g grows = omega arith
  total_grows (suc n) d f g grows = omega (arith, grows n, total_grows n d f g grows)
