-- ===== src/QueueMain/Stages.antt =====
-- The order in which the threads of c/multi-thread-queue/main.c come and go.
use code_slices.Base.{ℕ, ◌+◌, ◌≤◌, ◌<◌, ◌≡◌, ◌≢◌, refl, sym, ◌∙◌, arith}
use code_slices.Family.{update, total, total-update, total-eq-zero, total_ext, total_full}
use code_slices.Memory.{Ptr, Heap, Malloc}
use code_slices.QueueMain.{
  Place, Consumer, Provider, Main, System, roused, Consume, Provide, Conduct, Act, consume, provide,
  conduct, Step, act, spurious, start, Reach, here, later,
}

-- 1 once the thread has been counted in `g_thread_count`.
abbrev pub was_counted : Place → ℕ
was_counted Place.unborn = 0
was_counted Place.at_start = 0
was_counted Place.counting = 0
was_counted Place.counted = 1
was_counted Place.registered = 1
was_counted Place.holding = 1
was_counted Place.waiting = 1
was_counted Place.woken = 1
was_counted Place.leaving = 1
was_counted Place.working = 1
was_counted Place.returned = 1

abbrev pub registration : Consumer → ℕ
registration c = was_counted c.place

-- How many consumers main has created, and how many it has joined.
abbrev pub created_upto : ℕ → Main → ℕ
created_upto n Main.starting = 0
created_upto n (Main.filling i) = 0
created_upto n (Main.creating i) = i
created_upto n Main.joining_provider = n
created_upto n (Main.joining i) = n
created_upto n Main.cleaning = n
created_upto n Main.returned = n

abbrev pub joined_upto : ℕ → Main → ℕ
joined_upto n Main.starting = 0
joined_upto n (Main.filling i) = 0
joined_upto n (Main.creating i) = 0
joined_upto n Main.joining_provider = 0
joined_upto n (Main.joining i) = i
joined_upto n Main.cleaning = n
joined_upto n Main.returned = n

pub record Stages (n : ℕ) (s : System) : Type 0 where
  pub registered : total registration n s.consumers ≡ s.g_thread_count
  pub all_there : s.provider ≢ Provider.polling → n ≤ s.g_thread_count
  pub bounded : created_upto n s.main ≤ n
  pub unborn : (i : ℕ) → created_upto n s.main ≤ i → (s.consumers i).place ≡ Place.unborn
  pub joined : (i : ℕ) → i < joined_upto n s.main → (s.consumers i).place ≡ Place.returned

registration-le : (c : Consumer) → registration c ≤ 1
registration-le c = ground arith

-- Consumer `i`, which is neither unborn nor returned, becomes `c`, and may be counted.
pub record Turn (s t : System) (i : ℕ) (c : Consumer) : Type 0 where
  pub born : (s.consumers i).place ≢ Place.unborn
  pub going : (s.consumers i).place ≢ Place.returned
  pub main : t.main ≡ s.main
  pub provider : t.provider ≡ s.provider
  pub counted_up :
      t.g_thread_count + registration (s.consumers i) ≡ s.g_thread_count + registration c
  pub more : s.g_thread_count ≤ t.g_thread_count

module _ (m : Malloc) (q : Ptr) (k n : ℕ) (s : System) (inv : Stages n s) where
  open inv use {registered, all_there, bounded, unborn, joined}

  pub moved :
      (i : ℕ) (c : Consumer) (t : System)
      → i < n
      → t.consumers ≡ update s.consumers i c
      → Turn s t i c
      → Stages n t
  moved i c t lt ec turn = record {
    registered = ground (arith, total-update registration n i s.consumers c lt);
    all_there = ground arith;
    bounded = ground arith;
    unborn = λ j le. ground (arith, unborn j);
    joined = λ j lj. ground (arith, joined j);
  }

  pub Consume-Stages : (i : ℕ) → i < n → {t : System} → Consume q i s t → Stages n t
  Consume-Stages i lt {t} (Consume.lock_count e free) = moved i _ t lt refl (ground arith)
  Consume-Stages i lt {t} (Consume.count_up e) = moved i _ t lt refl (ground arith)
  Consume-Stages i lt {t} (Consume.unlock_count e) = moved i _ t lt refl (ground arith)
  Consume-Stages i lt {t} (Consume.lock e free) = moved i _ t lt refl (ground arith)
  Consume-Stages i lt {t} (Consume.wait e) = moved i _ t lt refl (ground arith)
  Consume-Stages i lt {t} (Consume.relock e free) = moved i _ t lt refl (ground arith)
  Consume-Stages i lt {t} (Consume.unlock e) = moved i _ t lt refl (ground arith)
  Consume-Stages i lt {t} (Consume.dequeue value e run) = moved i _ t lt refl (ground arith)

  pub Provide-Stages : {t : System} → Provide n s t → Stages n t
  Provide-Stages (Provide.poll e less) = ground (arith)
  Provide-Stages (Provide.ready e enough) = record {
    registered = registered;
    all_there = λ _. enough;
    bounded = bounded;
    unborn = unborn;
    joined = joined;
  }
  Provide-Stages (Provide.lock e free) = record {
    registered = registered;
    all_there = λ _. all_there (ground arith);
    bounded = bounded;
    unborn = unborn;
    joined = joined;
  }
  Provide-Stages (Provide.broadcast e) = record {
    registered =
        sym (total_ext registration n s.consumers (roused s.consumers) λ i lt. ground arith)
        ∙ registered;
    all_there = λ _. all_there (ground arith);
    bounded = bounded;
    unborn = λ i le. ground (arith, unborn i);
    joined = λ i lt. ground (arith, joined i);
  }
  Provide-Stages (Provide.unlock e) = record {
    registered = registered;
    all_there = λ _. all_there (ground arith);
    bounded = bounded;
    unborn = unborn;
    joined = joined;
  }

  -- A step of main that creates no thread.
  steered :
      (t : System)
      → t.consumers ≡ s.consumers
      → t.provider ≡ s.provider
      → t.g_thread_count ≡ s.g_thread_count
      → created_upto n s.main ≤ created_upto n t.main
      → created_upto n t.main ≤ n
      → ((i : ℕ) → i < joined_upto n t.main → (s.consumers i).place ≡ Place.returned)
      → Stages n t
  steered t ec ep eg up few done = record {
    registered = rw (ec, eg) registered;
    all_there = rw (ep, eg) all_there;
    bounded = few;
    unborn = λ i le. rw ec (unborn i (omega arith));
    joined = λ i lt. rw ec (done i lt);
  }

  pub Conduct-Stages : {t : System} → Conduct m q k n s t → Stages n t
  Conduct-Stages {t} (Conduct.init e run) =
      steered t refl refl refl (ground arith) (omega arith) (λ i lt. absurd (omega arith))
  Conduct-Stages {t} (Conduct.enqueue e lt run) =
      steered t refl refl refl (ground arith) (omega arith) (λ i lt. absurd (omega arith))
  Conduct-Stages {t} (Conduct.filled e le) =
      steered t refl refl refl (ground arith) (omega arith) (λ i lt. absurd (omega arith))
  Conduct-Stages (Conduct.create {i} e lt) = record {
    registered = ground (
      arith,
      total-update registration n i s.consumers (record { place = Place.at_start; count = 0 }) lt,
      unborn i,
    );
    all_there = all_there;
    bounded = omega arith;
    unborn = λ j le. ground (arith, unborn j);
    joined = λ j lj. absurd (omega arith);
  }
  Conduct-Stages {t} (Conduct.created e le) =
      steered t refl refl refl (ground (arith, bounded)) (omega arith)
        (λ i lt. absurd (omega arith))
  Conduct-Stages {t} (Conduct.join_provider e done) =
      steered t refl refl refl (ground arith) (omega arith) (λ i lt. absurd (omega arith))
  Conduct-Stages {t} (Conduct.join {i} e lt done) =
      steered t refl refl refl (ground arith) (omega arith) (λ j lj. ground (arith, joined j))
  Conduct-Stages {t} (Conduct.joined {i} e le) =
      steered t refl refl refl (ground arith) (omega arith) (λ j lt. ground (arith, joined j))
  Conduct-Stages {t} (Conduct.clean fuel e run) =
      steered t refl refl refl (ground arith) (omega arith) (λ j lt. ground (arith, joined j))

Act-Stages :
    (m : Malloc) (q : Ptr) (k n : ℕ) (s : System) {t : System}
    → Stages n s
    → Act m q k n s t
    → Stages n t
Act-Stages m q k n s inv (consume i lt st) = Consume-Stages m q k n s inv i lt st
Act-Stages m q k n s inv (provide st) = Provide-Stages m q k n s inv st
Act-Stages m q k n s inv (conduct st) = Conduct-Stages m q k n s inv st

Step-Stages :
    (m : Malloc) (q : Ptr) (k n : ℕ) (s : System) {t : System}
    → Stages n s
    → Step m q k n s t
    → Stages n t
Step-Stages m q k n s inv (act a) = Act-Stages m q k n s inv a
Step-Stages m q k n s {t} inv (spurious i lt e) = moved m q k n s inv i _ t lt refl (ground arith)

pub Reach-Stages :
    {m : Malloc} {q : Ptr} {k n : ℕ} {h : Heap} {s : System} → Reach m q k n h s → Stages n s
Reach-Stages {n} {h} here = record {
  registered = total-eq-zero registration n (start h).consumers (λ i lt. refl);
  all_there = λ ne. absurd (ne refl);
  bounded = omega arith;
  unborn = λ i le. refl;
  joined = λ i lt. absurd (omega arith);
}
Reach-Stages {m} {q} {k} {n} (later {s} r st) = Step-Stages m q k n s (Reach-Stages r) st

-- The provider leaves its loop only after every consumer has been counted, so that none of them is
-- still to be created or stands before its `g_thread_count++`.
pub all_registered :
    {m : Malloc} {q : Ptr} {k n : ℕ} {h : Heap} {s : System}
    → Reach m q k n h s
    → s.provider ≢ Provider.polling
    → (i : ℕ) → i < n
    → was_counted (s.consumers i).place ≡ 1
all_registered {n} {s} r ne i lt =
    let inv = Reach-Stages r in
    total_full registration n s.consumers registration-le
      (omega (arith, inv.registered, inv.all_there ne)) i lt
