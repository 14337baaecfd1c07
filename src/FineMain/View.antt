-- ===== src/FineMain/View.antt =====
-- The view of a state of FineMain in which each call is one step: the call of a thread that has given
-- the mutex back is over, and the memory is `base`, as it was when a call that still holds the mutex
-- began.
use code_slices.Base.{ℕ, ◌<◌, ◌≡◌, ◌≢◌, refl, Bool, true, false, Option, none, some, ℕ_discrete}
use mathlib.Core.Path.{fun_ext}
use code_slices.Family.{update, update-same, update-other}
use code_slices.Memory.{Ptr, Heap}
use code_slices.QueueMain.{Place, Consumer, System, rouse, roused}
use code_slices.Atomic.{Script, returns, access, leave}
use code_slices.Atomic.Models.{Critical}
use code_slices.FineMain.{Fine, called}

abbrev pub view_of : Script → Consumer → Consumer
view_of (returns ret) c = called ret c
view_of (Script.lock r) c = c
view_of (Script.unlock r) c = c
view_of (access step next) c = c

abbrev pub view : Option Script → Consumer → Consumer
view none c = c
view (some r) c = view_of r c

abbrev pub viewed : (ℕ → Option Script) → (ℕ → Consumer) → ℕ → Consumer
viewed scripts consumers i = view (scripts i) (consumers i)

abbrev pub coarse : Heap → Fine → System
coarse base f = record f.sys { heap = base; consumers = viewed f.scripts f.sys.consumers }

-- A thread in a call is one of the consumers, at its loop.
abbrev pub InCall : ℕ → ℕ → Option Script → Consumer → Type 0
InCall n i none c = Unit {0}
InCall n i (some r) c = (i < n) × (c.place ≡ Place.working)

pub view_of-Critical : (q : Ptr) (r : Script) (c : Consumer) → Critical q r → view_of r c ≡ c
view_of-Critical q (returns ret) c critical = absurd critical
view_of-Critical q (Script.lock r) c critical = absurd critical
view_of-Critical q (Script.unlock r) c critical = refl
view_of-Critical q (access step next) c critical = refl

-- A consumer outside a call changes as it does in the view.
pub viewed-update :
    (scripts : ℕ → Option Script) (consumers : ℕ → Consumer) (i : ℕ) (c : Consumer)
    → scripts i ≡ none
    → viewed scripts (update consumers i c) ≡ update (viewed scripts consumers) i c
viewed-update scripts consumers i c out = fun_ext λ j. elim (ℕ_discrete j i) [
  | yes e ↦ rw (e, update-same consumers i c, update-same (viewed scripts consumers) i c, out) refl
  | no ne ↦
      rw (update-other consumers i j c ne, update-other (viewed scripts consumers) i j c ne) refl
]

-- A step of a call that the view does not show.
pub viewed-hidden :
    (scripts : ℕ → Option Script) (consumers : ℕ → Consumer) (i : ℕ) (o : Option Script)
    → view o (consumers i) ≡ view (scripts i) (consumers i)
    → viewed (update scripts i o) consumers ≡ viewed scripts consumers
viewed-hidden scripts consumers i o same = fun_ext λ j. elim (ℕ_discrete j i) [
  | yes e ↦ rw (e, update-same scripts i o) same
  | no ne ↦ rw (update-other scripts i j o ne) refl
]

-- The end of a call shows nothing new.
pub viewed-leave :
    (scripts : ℕ → Option Script) (consumers : ℕ → Consumer) (i : ℕ) (ret : Bool)
    → scripts i ≡ some (returns ret)
    → viewed (update scripts i none) (update consumers i (called ret (consumers i)))
      ≡ viewed scripts consumers
viewed-leave scripts consumers i ret at = fun_ext λ j. elim (ℕ_discrete j i) [
  | yes e ↦
      rw (e, update-same scripts i none, update-same consumers i (called ret (consumers i)), at)
        refl
  | no ne ↦
      rw
        (update-other scripts i j none ne, update-other consumers i j (called ret (consumers i)) ne)
        refl
]

-- The step that gives the mutex back shows the call.
pub viewed-unlock :
    (scripts : ℕ → Option Script) (consumers : ℕ → Consumer) (i : ℕ) (ret : Bool)
    → scripts i ≡ some (leave ret)
    → viewed (update scripts i (some (returns ret))) consumers
      ≡ update (viewed scripts consumers) i (called ret (viewed scripts consumers i))
viewed-unlock scripts consumers i ret at = fun_ext λ j. elim (ℕ_discrete j i) [
  | yes e ↦
      rw
        (
          e,
          update-same scripts i (some (returns ret)),
          update-same (viewed scripts consumers) i (called ret (viewed scripts consumers i)),
          at,
        )
        refl
  | no ne ↦
      rw
        (
          update-other scripts i j (some (returns ret)) ne,
          update-other (viewed scripts consumers) i j (called ret (viewed scripts consumers i)) ne,
        )
        refl
]

rouse-view :
    (o : Option Script) (c : Consumer)
    → view o (record { place = rouse c.place; count = c.count })
      ≡ record { place = rouse (view o c).place; count = (view o c).count }
rouse-view none c = refl
rouse-view (some (returns true)) c = refl
rouse-view (some (returns false)) c = refl
rouse-view (some (Script.lock r)) c = refl
rouse-view (some (Script.unlock r)) c = refl
rouse-view (some (access step next)) c = refl

pub viewed-roused :
    (scripts : ℕ → Option Script) (consumers : ℕ → Consumer)
    → viewed scripts (roused consumers) ≡ roused (viewed scripts consumers)
viewed-roused scripts consumers = fun_ext λ j. rouse-view (scripts j) (consumers j)

-- The view of a consumer that is not at its loop.
pub none_of_unborn :
    (n i : ℕ) (o : Option Script) (c : Consumer)
    → InCall n i o c
    → (view o c).place ≡ Place.unborn
    → o ≡ none
none_of_unborn n i none c inside e = refl
none_of_unborn n i (some (returns true)) c inside e = absurd (cc)
none_of_unborn n i (some (returns false)) c inside e = absurd (cc)
none_of_unborn n i (some (Script.lock r)) c (lt, at) e = absurd (cc)
none_of_unborn n i (some (Script.unlock r)) c (lt, at) e = absurd (cc)
none_of_unborn n i (some (access step next)) c (lt, at) e = absurd (cc)

pub view_of_returned :
    (n i : ℕ) (o : Option Script) (c : Consumer)
    → InCall n i o c
    → c.place ≡ Place.returned
    → (view o c).place ≡ Place.returned
view_of_returned n i none c inside e = e
view_of_returned n i (some r) c (lt, at) e = absurd (cc)

pub none_of_elsewhere :
    (n i : ℕ) (o : Option Script) (c : Consumer)
    → InCall n i o c
    → c.place ≢ Place.working
    → o ≡ none
none_of_elsewhere n i none c inside ne = refl
none_of_elsewhere n i (some r) c (lt, at) ne = absurd (ne at)

pub none_of_over :
    (n i : ℕ) (o : Option Script) (c : Consumer)
    → InCall n i o c
    → (i < n → c.place ≡ Place.returned)
    → o ≡ none
none_of_over n i none c inside over = refl
none_of_over n i (some r) c (lt, at) over =
    let gone : c.place ≡ Place.returned = over lt in absurd (cc)
