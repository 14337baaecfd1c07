-- ===== src/Atomic/Models.antt =====
-- When a script does what a command of c/multi-thread-queue does in one go.
use code_slices.Base.{◌≡◌, refl, ◌∙◌, sym, ap, Bool, true, false, Option, none, some, if◌then◌else◌}
use code_slices.Memory.{Ptr, Heap, Cmd, and_then, pthread_mutex_lock, pthread_mutex_unlock}
use code_slices.Memory as Memory
use code_slices.Atomic.{
  Script, returns, lock, unlock, access, Code, single, heap_of, next_of, pure, ◌>>=◌, leave,
}

-- The script with no other thread.
unfoldable pub exec : Ptr → Script → Cmd Bool
exec q (returns ret) h = some (ret, h)
exec q (lock r) h = and_then (pthread_mutex_lock q h) λ _. exec q r
exec q (unlock r) h = and_then (pthread_mutex_unlock q h) λ _. exec q r
exec q (access step next) h =
    let rest = exec q (next h) in elim (step h) [ none ↦ none | some g ↦ rest g ]

abbrev pub Leaves : Script → Type 0
Leaves (returns ret) = Unit {0}
Leaves (lock r) = ⊥
Leaves (unlock r) = ⊥
Leaves (access step next) = ⊥

-- From here to its return the script gives the mutex back once, at its end, and leaves it alone
-- before.
abbrev pub Critical : Ptr → Script → Type 0
Critical q (returns ret) = ⊥
Critical q (lock r) = ⊥
Critical q (unlock r) = Leaves r
Critical q (access step next) =
    (h g : Heap) → step h ≡ some g → (g.lock q ≡ h.lock q) × Critical q (next h)

-- The code does what the command does, and leaves the mutex alone.
pub record Models {A : Type 0} (q : Ptr) (c : Code A) (m : Cmd A) : Type 0 where
  pub runs : (k : A → Script) (h : Heap) → exec q (c k) h ≡ and_then (m h) λ a. exec q (k a)
  pub inside : (k : A → Script) → ((a : A) → Critical q (k a)) → Critical q (c k)

abbrev pub Kept : {A : Type 0} → Ptr → Heap → Option (A × Heap) → Type 0
Kept q h none = Unit {0}
Kept q h (some (a, g)) = g.lock q ≡ h.lock q

module _ (q : Ptr) where
  exec-single :
      {A : Type 0} (r : Option (A × Heap)) (k : A → Script)
      → elim (heap_of r) [ none ↦ none | some g ↦ exec q (next_of r k) g ]
        ≡ and_then r λ a. exec q (k a)
  exec-single none k = refl
  exec-single (some (a, g)) k = refl

  single-inside :
      {A : Type 0} (h g : Heap) (r : Option (A × Heap)) (k : A → Script)
      → ((a : A) → Critical q (k a))
      → Kept q h r
      → heap_of r ≡ some g
      → (g.lock q ≡ h.lock q) × Critical q (next_of r k)
  single-inside h g none k crit keeps e = absurd cc
  single-inside h g (some (a, f)) k crit keeps e =
      let same : f ≡ g = cc in (ap (λ (x : Heap). x.lock q) (sym same) ∙ keeps, crit a)

  pub single-Models :
      {A : Type 0} (m : Cmd A) → ((h : Heap) → Kept q h (m h)) → Models q (single m) m
  unfolding exec single
  single-Models m keeps = record {
    runs = λ k h. exec-single (m h) k;
    inside = λ k crit h g e. single-inside h g (m h) k crit (keeps h) e;
  }

  pub pure-Models : {A : Type 0} (a : A) → Models q (pure a) (Memory.pure a)
  pure-Models a = record { runs = λ k h. refl; inside = λ k crit. crit a }

  then_assoc :
      {A B : Type 0} (r : Option (A × Heap)) (f : A → Cmd B) (d : A → Code B) (k : B → Script)
      → ((a : A) (g : Heap) → exec q (d a k) g ≡ and_then (f a g) λ b. exec q (k b))
      → (and_then r λ a. exec q (d a k)) ≡ and_then (and_then r f) λ b. exec q (k b)
  then_assoc none f d k each = refl
  then_assoc (some (a, g)) f d k each = each a g

  pub bind-Models :
      {A B : Type 0} {c : Code A} {m : Cmd A} {d : A → Code B} {f : A → Cmd B}
      → Models q c m
      → ((a : A) → Models q (d a) (f a))
      → Models q (c >>= d) (Memory.◌>>=◌ m f)
  bind-Models {m = m} {d = d} {f = f} first rest = record {
    runs = λ k h. first.runs (λ a. d a k) h ∙ then_assoc (m h) f d k (λ a g. (rest a).runs k g);
    inside = λ k crit. first.inside (λ a. d a k) (λ a. (rest a).inside k crit);
  }

  pub if-Models :
      {A : Type 0} (b : Bool) {c d : Code A} {m n : Cmd A}
      → Models q c m
      → Models q d n
      → Models q (if b then c else d) (if b then m else n)
  if-Models true taken other = taken
  if-Models false other taken = taken

  -- A script from a point where the mutex is held to the return.
  pub record Ending (r : Script) (m : Cmd Bool) : Type 0 where
    pub runs : (h : Heap) → exec q r h ≡ m h
    pub inside : Critical q r

  pub leave-Ending :
      (ret : Bool) → Ending (leave ret) (Memory.◌>>=◌ (pthread_mutex_unlock q) λ _. Memory.pure ret)
  unfolding exec
  leave-Ending ret = record { runs = λ h. refl; inside = tt }

  pub then-same :
      {A : Type 0} (r : Option (A × Heap)) (k : A → Script) (f : A → Cmd Bool)
      → ((a : A) (g : Heap) → exec q (k a) g ≡ f a g)
      → (and_then r λ a. exec q (k a)) ≡ and_then r f
  then-same none k f each = refl
  then-same (some (a, g)) k f each = each a g

  pub then-Ending :
      {A : Type 0} {c : Code A} {m : Cmd A} {k : A → Script} {f : A → Cmd Bool}
      → Models q c m
      → ((a : A) → Ending (k a) (f a))
      → Ending (c k) (Memory.◌>>=◌ m f)
  then-Ending {m = m} {k = k} {f = f} first rest = record {
    runs = λ h. first.runs k h ∙ then-same (m h) k f (λ a g. (rest a).runs g);
    inside = first.inside k (λ a. (rest a).inside);
  }

  pub if-Ending :
      (b : Bool) {r s : Script} {m n : Cmd Bool}
      → Ending r m
      → Ending s n
      → Ending (if b then r else s) (if b then m else n)
  if-Ending true taken other = taken
  if-Ending false other taken = taken
