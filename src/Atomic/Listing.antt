-- ===== src/Atomic/Listing.antt =====
-- The routines of c/multi-thread-queue, access by access, do what they do in one go.
use code_slices.Base.{ℕ, ◌≡◌, refl, Bool, true, false, Option, none, ◌==◌, if◌then◌else◌}
use code_slices.Memory.{
  Ptr, null, Heap, Cmd, load_prev, load_next, load_payload, set_prev, set_next, set_payload, Malloc,
  malloc, free, pthread_mutex_lock,
}
use code_slices.Memory as Memory
use code_slices.Ring as Ring
use code_slices.Queue as Queue
use code_slices.Atomic.{
  Script, returns, lock, unlock, access, ◌>>◌, Code, single, is_empty, list_init, list_new,
  list_free, list_remove, list_add, q_enqueue, assign_data, take_first, q_dequeue,
}
use code_slices.Atomic.Models.{
  then-same, exec, Critical, Kept, Models, single-Models, pure-Models, bind-Models, if-Models,
  Ending, leave-Ending, then-Ending, if-Ending,
}

module _ (q : Ptr) where
  guarded :
      {A : Type 0} (h : Heap) (b : Bool) (r : Option (A × Heap))
      → Kept q h r
      → Kept q h (if b then r else none)
  guarded h true r keeps = keeps
  guarded h false r keeps = tt

  load_prev-Models : (p : Ptr) → Models q (single (load_prev p)) (load_prev p)
  load_prev-Models p = single-Models q (load_prev p) λ h. guarded h (h.live p) _ refl

  load_next-Models : (p : Ptr) → Models q (single (load_next p)) (load_next p)
  load_next-Models p = single-Models q (load_next p) λ h. guarded h (h.live p) _ refl

  load_payload-Models : (p : Ptr) → Models q (single (load_payload p)) (load_payload p)
  load_payload-Models p = single-Models q (load_payload p) λ h. guarded h (h.live p) _ refl

  set_prev-Models : (p v : Ptr) → Models q (single (set_prev p v)) (set_prev p v)
  set_prev-Models p v = single-Models q (set_prev p v) λ h. guarded h (h.live p) _ refl

  set_next-Models : (p v : Ptr) → Models q (single (set_next p v)) (set_next p v)
  set_next-Models p v = single-Models q (set_next p v) λ h. guarded h (h.live p) _ refl

  set_payload-Models : (p : Ptr) (v : ℕ) → Models q (single (set_payload p v)) (set_payload p v)
  set_payload-Models p v = single-Models q (set_payload p v) λ h. guarded h (h.live p) _ refl

  free-Models : (p : Ptr) → Models q (single (free p)) (free p)
  free-Models p = single-Models q (free p) λ h. guarded h (h.live p) _ refl

  either :
      {A : Type 0} (h : Heap) (b : Bool) (r s : Option (A × Heap))
      → Kept q h r
      → Kept q h s
      → Kept q h (if b then r else s)
  either h true r s keeps other = keeps
  either h false r s other keeps = keeps

  malloc-Models : (m : Malloc) → Models q (single (malloc m)) (malloc m)
  malloc-Models m = single-Models q (malloc m) λ h. either h (m.address h == null) _ _ refl refl

  is_empty-Models : (list : Ptr) → Models q (is_empty list) (Ring.is_empty list)
  unfolding is_empty Ring.is_empty
  is_empty-Models list =
      bind-Models q (load_prev-Models list)
        λ prev. bind-Models q (load_next-Models list) λ next. pure-Models q _

  sequel :
      {A B : Type 0} {c : Code A} {d : Code B} {m : Cmd A} {n : Cmd B}
      → Models q c m
      → Models q d n
      → Models q (c >> d) (Memory.◌>>◌ m n)
  sequel first rest = bind-Models q first λ _. rest

  list_init-Models : (list : Ptr) → Models q (list_init list) (Ring.list_init list)
  unfolding list_init Ring.list_init
  list_init-Models list = if-Models q (list == null) (pure-Models q tt) (
      sequel (set_prev-Models list list)
        (sequel (set_next-Models list list) (set_payload-Models list null)))

  list_new-Models : (m : Malloc) (d : ℕ) → Models q (list_new m d) (Ring.list_new m d)
  unfolding list_new Ring.list_new
  list_new-Models m d = bind-Models q (malloc-Models m) λ list.
      if-Models q (list == null) (pure-Models q list)
        (sequel (list_init-Models list) (sequel (set_payload-Models list d) (pure-Models q list)))

  list_free-Models : (node : Ptr) → Models q (list_free node) (Ring.list_free node)
  unfolding list_free Ring.list_free
  list_free-Models node = if-Models q (node == null) (pure-Models q tt) (
      sequel (set_prev-Models node null) (
        sequel (set_next-Models node null)
          (sequel (set_payload-Models node null) (free-Models node))))

  list_remove-Models :
      (list node : Ptr) → Models q (list_remove list node) (Ring.list_remove list node)
  unfolding list_remove Ring.list_remove
  list_remove-Models list node = bind-Models q (is_empty-Models list) λ empty.
      if-Models q empty (pure-Models q node) (
        bind-Models q (load_prev-Models node) λ prev. bind-Models q (load_next-Models node) λ next.
          sequel (set_next-Models prev next) (
            sequel (set_prev-Models next prev) (
              sequel (set_prev-Models node node)
                (sequel (set_next-Models node node) (pure-Models q node)))))

  list_add-Models : (list node : Ptr) → Models q (list_add list node) (Ring.list_add list node)
  unfolding list_add Ring.list_add
  list_add-Models list node = bind-Models q (is_empty-Models list) λ empty.
      if-Models q empty
        (sequel (set_next-Models list node) (
          sequel (set_prev-Models list node) (
            sequel (set_prev-Models node list)
              (sequel (set_next-Models node list) (pure-Models q list)))))
        (bind-Models q (load_prev-Models list) λ last. sequel (set_next-Models last node) (
          bind-Models q (load_prev-Models list) λ tail. sequel (set_prev-Models node tail) (
            sequel (set_next-Models node list)
              (sequel (set_prev-Models list node) (pure-Models q list)))))

  assign_data-Models :
      (target list : Ptr) → Models q (assign_data target list) (Queue.assign_data target list)
  unfolding assign_data Queue.assign_data
  assign_data-Models target list =
      if-Models q (target == null) (pure-Models q target) (load_payload-Models list)

  take_first-Ending : (target : Ptr) → Ending q (take_first q target) (Queue.take_first q target)
  unfolding take_first Queue.take_first
  take_first-Ending target = then-Ending q (load_next-Models q) λ first.
      then-Ending q (list_remove-Models q first) λ list.
        then-Ending q (assign_data-Models target list)
          λ _. then-Ending q (list_free-Models list) λ _. leave-Ending q true

  -- A call: it asks for the mutex, and behind that is at the start of its critical part.
  abbrev pub Behind : Script → Type 0
  Behind (returns ret) = ⊥
  Behind (lock r) = Critical q r
  Behind (unlock r) = ⊥
  Behind (access step next) = ⊥

  pub record Whole (r : Script) (m : Cmd Bool) : Type 0 where
    pub runs : (h : Heap) → exec q r h ≡ m h
    pub inside : Behind r

  lock-Whole :
      {r : Script} {m : Cmd Bool}
      → Ending q r m
      → Whole (lock r) (Memory.◌>>=◌ (pthread_mutex_lock q) λ _. m)
  unfolding exec
  lock-Whole {r = r} {m = m} ending = record {
    runs = λ h. then-same q (pthread_mutex_lock q h) (λ _. r) (λ _. m) (λ _ g. ending.runs g);
    inside = ending.inside;
  }

  pub q_enqueue-Whole : (m : Malloc) (d : ℕ) → Whole (q_enqueue m q d) (Queue.q_enqueue m q d)
  unfolding q_enqueue Queue.q_enqueue
  q_enqueue-Whole m d = lock-Whole (
      then-Ending q (list_new-Models m d) λ list.
        if-Ending q (list == null) (leave-Ending q false)
          (then-Ending q (list_add-Models q list) λ _. leave-Ending q true))

  pub q_dequeue-Whole : (target : Ptr) → Whole (q_dequeue q target) (Queue.q_dequeue q target)
  unfolding q_dequeue Queue.q_dequeue
  q_dequeue-Whole target = lock-Whole (
      then-Ending q (is_empty-Models q)
        λ empty. if-Ending q empty (leave-Ending q false) (take_first-Ending target))
