-- ===== src/FineMain/Beside.antt =====
-- The steps of c/multi-thread-queue/main.c beside the calls of q_dequeue leave less to do.
use code_slices.Base.{ℕ, ◌≤◌, ◌<◌, ◌≡◌, refl, none, arith}
use code_slices.Memory.{Ptr, Heap, Malloc}
use code_slices.QueueMain.{Place, Consumer, Main, System, Reach, Consume, Provide, Conduct}
use code_slices.QueueMain as QueueMain
use code_slices.QueueMain.Stages.{created_upto}
use code_slices.QueueMain.Tally.{Ready}
use code_slices.QueueMain.Awake.{all_born}
use code_slices.QueueMain.Finish.{main_left, Consume-falls, Provide-falls}
use code_slices.FineMain.{Fine, FineReach, NoCall}
use code_slices.FineMain.View.{coarse}
use code_slices.FineMain.Coarse.{Consume-coarse, Provide-coarse}
use code_slices.FineMain.Simulation.{reached}
use code_slices.FineMain.Ranks.{Ranked, Lower, sim, roused_on, shows}

module _ (m : Malloc) (q : Ptr) (k n : ℕ) (h : Heap) (ready : Ready q h) (some_there : 1 ≤ n)
    (f : Fine) (rank : ℕ) (r : Ranked m q k n h f rank) where
  open r use {reach, roused, weights, fit, sums}

  pub Consume-Lower :
      (i : ℕ) {t : System}
      → i < n
      → f.scripts i ≡ none
      → (st : Consume q i f.sys t) → NoCall st
      → FineReach m q k n h (record f { sys = t })
      → Lower m q k n h f rank r (record f { sys = t })
  Consume-Lower i {t} lt out st whole there =
      let (base, coarsely) = reached m q k n h f (sim m q k n h f rank r) in
      let shown = Consume-coarse q i base f out st whole in
      let next = QueueMain.later coarsely (QueueMain.act (QueueMain.consume i lt shown)) in
      let (up, less) =
        Consume-falls m q k n h ready some_there (coarse base f) coarsely
          (roused_on m q k n h f rank r base) i lt next shown in
      shows m q k n h f rank r t there (record { late = up.late; awake = up.awake }) less

  pub Provide-Lower :
      {t : System}
      → Provide n f.sys t
      → FineReach m q k n h (record f { sys = t })
      → Lower m q k n h f rank r (record f { sys = t })
  Provide-Lower {t} st there =
      let (base, coarsely) = reached m q k n h f (sim m q k n h f rank r) in
      let (up, less) =
        Provide-falls m q k n h ready some_there (coarse base f) coarsely
          (roused_on m q k n h f rank r base) (Provide-coarse n base f st) in
      shows m q k n h f rank r t there (record { late = up.late; awake = up.awake }) less

  born : n ≤ created_upto n f.sys.main
  born =
      let (base, coarsely) = reached m q k n h f (sim m q k n h f rank r) in
      all_born m q k n h ready some_there (coarse base f) coarsely
        (roused_on m q k n h f rank r base)

  -- Main goes on, and touches nothing that counts.
  record Onward (t : System) : Type 0 where
    consumers : t.consumers ≡ f.sys.consumers
    provider : t.provider ≡ f.sys.provider
    stored : t.stored ≡ f.sys.stored
    main : main_left n t.main < main_left n f.sys.main

  Conduct-Onward : {t : System} → Conduct m q k n f.sys t → Onward t
  Conduct-Onward (Conduct.init e run) = absurd (ground (arith, born))
  Conduct-Onward (Conduct.enqueue e lt run) = absurd (ground (arith, born))
  Conduct-Onward (Conduct.filled e le) = absurd (ground (arith, born))
  Conduct-Onward (Conduct.create e lt) = absurd (ground (arith, born))
  Conduct-Onward (Conduct.created e le) = record {
    consumers = refl;
    provider = refl;
    stored = refl;
    main = ground arith;
  }
  Conduct-Onward (Conduct.join_provider e done) = record {
    consumers = refl;
    provider = refl;
    stored = refl;
    main = ground arith;
  }
  Conduct-Onward (Conduct.join e lt done) = record {
    consumers = refl;
    provider = refl;
    stored = refl;
    main = ground arith;
  }
  Conduct-Onward (Conduct.joined e le) = record {
    consumers = refl;
    provider = refl;
    stored = refl;
    main = ground arith;
  }
  Conduct-Onward (Conduct.clean fuel e run) = record {
    consumers = refl;
    provider = refl;
    stored = refl;
    main = ground arith;
  }

  pub Conduct-Lower :
      {t : System}
      → Conduct m q k n f.sys t
      → FineReach m q k n h (record f { sys = t })
      → Lower m q k n h f rank r (record f { sys = t })
  Conduct-Lower {t} st there =
      let on = Conduct-Onward st in
      shows m q k n h f rank r t there
        (record {
          late = rw on.provider roused.late;
          awake = λ j lt. rw on.consumers (roused.awake j lt);
        })
        (rw (on.provider, on.stored, on.consumers) (omega (arith, on.main)))
