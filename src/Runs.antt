-- ===== src/Runs.antt =====
-- Runs of a step relation that cannot be avoided: what holds on every schedule.
use code_slices.Base.{ℕ, zero, suc, ◌<◌, ◌≡◌, refl, ◌⊎◌, inl, inr, arith}

-- Whichever step is taken, `Goal` is reached after finitely many: it holds, or there is a step, and
-- the same is true after each.
pub data Inevitable {S : Type 0} (Goal : S → Type 0) (Next : S → S → Type 0) : S → Type 0 where
  reached : {s : S} → Goal s → Inevitable Goal Next s
  goes_on :
      {s t : S} → Next s t → ((u : S) → Next s u → Inevitable Goal Next u) → Inevitable Goal Next s

-- What shows this: an invariant of a state and a number under which there is a step until `Goal` holds,
-- and which each step keeps with a smaller number.
pub record Ranking {S : Type 0} (Goal : S → Type 0) (Next : S → S → Type 0) (Inv : S → ℕ → Type 0)
    : Type 0 where
  pub moves : (s : S) (rank : ℕ) → Inv s rank → Goal s ⊎ ((t : S) × Next s t)
  pub falls : (s t : S) (rank : ℕ) → Inv s rank → Next s t → (less : ℕ) × (less < rank) × Inv t less

module _ {S : Type 0} {Goal : S → Type 0} {Next : S → S → Type 0} {Inv : S → ℕ → Type 0} where
  within :
      Ranking Goal Next Inv
      → (bound : ℕ) (s : S) (rank : ℕ) → Inv s rank
      → rank < bound
      → Inevitable Goal Next s
  within d zero s rank inv small = elim small [ ]
  within d (suc bound) s rank inv small = elim (d.moves s rank inv) [
    | inl done ↦ reached done
    | inr (t, step) ↦ goes_on step λ u next.
        let (less, below, kept) = d.falls s u rank inv next in
        within d bound u less kept (omega arith)
  ]

  pub Ranking-Inevitable :
      Ranking Goal Next Inv → (s : S) (rank : ℕ) → Inv s rank → Inevitable Goal Next s
  Ranking-Inevitable d s rank inv = within d (suc rank) s rank inv (omega arith)

-- The same with a number that the state gives.
pub record Descent {S : Type 0} (Goal : S → Type 0) (Next : S → S → Type 0) (Inv : S → Type 0)
    (measure : S → ℕ) : Type 0 where
  pub moves : (s : S) → Inv s → Goal s ⊎ ((t : S) × Next s t)
  pub falls : (s t : S) → Inv s → Next s t → Inv t × (measure t < measure s)

module _ {S : Type 0} {Goal : S → Type 0} {Next : S → S → Type 0} {Inv : S → Type 0}
    {measure : S → ℕ} where
  ranked : Descent Goal Next Inv measure → Ranking Goal Next (λ s rank. Inv s × (rank ≡ measure s))
  ranked d = record {
    moves = λ s rank (inv, e). d.moves s inv;
    falls = λ s t rank (inv, e) next.
        let (kept, less) = d.falls s t inv next in (measure t, omega arith, (kept, refl));
  }

  pub Descent-Inevitable : Descent Goal Next Inv measure → (s : S) → Inv s → Inevitable Goal Next s
  Descent-Inevitable d s inv = Ranking-Inevitable (ranked d) s (measure s) (inv, refl)
