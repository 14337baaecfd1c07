-- ===== src/FineMain/Ranks.antt =====
-- What c/multi-thread-queue/main.c has left to do once the broadcast has reached every consumer, with
-- its calls of q_dequeue cut into accesses.
use mathlib.Core.Path.{subst}
use code_slices.Base.{ℕ, ◌+◌, ◌*◌, ◌<◌, ◌≡◌, refl, sym, ap, Option, false, arith}
use code_slices.Family.{update, total, total-update}
use code_slices.Memory.{Ptr, Heap, Malloc}
use code_slices.QueueMain.{Consumer, System}
use code_slices.QueueMain.Missed.{asleep}
use code_slices.QueueMain.Awake.{Roused}
use code_slices.QueueMain.Finish.{measure}
use code_slices.Atomic.{Script}
use code_slices.FineMain.{Fine, FineReach}
use code_slices.FineMain.View.{viewed, coarse}
use code_slices.FineMain.Simulation.{Sim}
use code_slices.FineMain.Refine.{Reach-Sim}
use code_slices.FineMain.Weights.{Fits, AllFit, AllFit-update}

abbrev pub sum : ℕ → (ℕ → ℕ) → ℕ
sum n weights = total (λ w. w) n weights

-- The state is reached and roused, and `rank` is what is left to do: 20 for each step of the view, and
-- the weights of the consumers.
pub record Ranked (m : Malloc) (q : Ptr) (k n : ℕ) (h : Heap) (f : Fine) (rank : ℕ) : Type 0 where
  pub reach : FineReach m q k n h f
  pub roused : Roused n (coarse f.sys.heap f)
  pub weights : ℕ → ℕ
  pub fit : AllFit weights f.scripts
  pub sums : rank ≡ 20 * measure n (coarse f.sys.heap f) + sum n weights

module _ (m : Malloc) (q : Ptr) (k n : ℕ) (h : Heap) (f : Fine) (rank : ℕ)
    (r : Ranked m q k n h f rank) where
  open r use {reach, roused, weights, fit, sums}

  abbrev pub Lower : Fine → Type 0
  Lower g = (less : ℕ) × (less < rank) × Ranked m q k n h g less

  pub sim : Sim m q k n h f
  sim = Reach-Sim m q k n h f reach

  pub roused_on : (base : Heap) → Roused n (coarse base f)
  roused_on base = record { late = roused.late; awake = roused.awake }

  -- A step that the view shows and that is no call.
  pub shows :
      (t : System)
      → FineReach m q k n h (record f { sys = t })
      → Roused n (coarse t.heap (record f { sys = t }))
      → measure n (coarse t.heap (record f { sys = t })) < measure n (coarse f.sys.heap f)
      → Lower (record f { sys = t })
  shows t there up less = (
    _,
    omega (arith, sums),
    record { reach = there; roused = up; weights = weights; fit = fit; sums = refl },
  )

  -- A step of consumer `i` that the view does not show.
  pub hides :
      (i w : ℕ) (a : Heap) (c : ℕ → Consumer) (o : Option Script)
      → i < n
      → FineReach m q k n h (record {
        sys = record f.sys { heap = a; consumers = c };
        scripts = update f.scripts i o;
      })
      → viewed (update f.scripts i o) c ≡ viewed f.scripts f.sys.consumers
      → Fits w o
      → w < weights i
      → Lower (record {
        sys = record f.sys { heap = a; consumers = c };
        scripts = update f.scripts i o;
      })
  hides i w a c o lt there e fits less =
      let same =
        ap (λ (v : ℕ → Consumer). measure n (record f.sys { heap = a; consumers = v })) e in
      (
        _,
        omega (arith, sums, same, total-update (λ x. x) n i weights w lt),
        record {
          reach = there;
          roused = record {
            late = roused.late;
            awake =
                subst (λ (v : ℕ → Consumer). (j : ℕ) → j < n → asleep (v j).place ≡ false) (sym e)
                  roused.awake;
          };
          weights = update weights i w;
          fit = AllFit-update weights f.scripts i w o fit fits;
          sums = refl;
        },
      )
