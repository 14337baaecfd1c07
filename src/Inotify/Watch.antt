-- ===== src/Inotify/Watch.antt =====
-- watcher of tools/inotify/inotify-watcher.c over the rounds of its loop.
use mathlib.Core.List.{append_assoc}
use code_slices.Base.{
  codes, not, ◌&&◌, ℕ, ◌<◌, ◌≡◌, refl, sym, ap, Bool, true, false, Option, none, some, List, [],
  ◌∷◌, ◌++◌, arith, length, if◌then◌else◌,
}
use code_slices.Base.Int.{ℤ, pos, negsuc, eqb_ℤ, ltb_ℤ}
use code_slices.Inotify.{
  Kernel, event_line, Reading, fails, bytes, Round, Ending, exited, waiting, closed, round_of,
  watch_loop, watcher, watch_main,
}
use code_slices.Inotify.Lines.{Event, named, bare, AreEvents, encode, lines, walk-lines}

-- What the kernel delivers in a round: the events of one read, or an error.
pub record Delivery : Type 0 where
  pub stopped : Bool
  pub events : Option (List Event)

module _ (kernel : Kernel) where
  abbrev pub reading_of : Option (List Event) → Reading
  reading_of none = fails
  reading_of (some es) = bytes (encode kernel es)

  unfoldable pub rounds_of : List Delivery → List Round
  rounds_of [] = []
  rounds_of (d ∷ ds) = record { stopped = d.stopped; reading = reading_of d.events } ∷ rounds_of ds

  -- The events are well formed, and each read has fewer than `fuel` of them.
  abbrev pub Delivered : ℕ → Option (List Event) → Type 0
  Delivered fuel none = Unit {0}
  Delivered fuel (some es) = AreEvents es × (length es < fuel)

  abbrev pub AllDelivered : ℕ → List Delivery → Type 0
  AllDelivered fuel [] = Unit {0}
  AllDelivered fuel (d ∷ ds) = Delivered fuel d.events × AllDelivered fuel ds

  -- The events of the reads in front of the first error or stop, and how the run ends.
  abbrev pub seen_from : Bool → Option (List Event) → List Event × Ending → List Event × Ending
  seen_from true events later = ([], closed)
  seen_from false none later = ([], closed)
  seen_from false (some es) (more, ending) = (es ++ more, ending)

  unfoldable pub seen : List Delivery → List Event × Ending
  seen [] = ([], waiting)
  seen (d ∷ ds) = seen_from d.stopped d.events (seen ds)

  lines-append :
      (target_dir : List ℕ) (xs ys : List Event)
      → lines kernel target_dir (xs ++ ys)
        ≡ lines kernel target_dir xs ++ lines kernel target_dir ys
  unfolding lines
  lines-append target_dir [] ys = refl
  lines-append target_dir (named mask name padding ∷ xs) ys = rw (lines-append target_dir xs ys) (
      sym (
        append_assoc (event_line kernel target_dir mask name) (lines kernel target_dir xs)
          (lines kernel target_dir ys)))
  lines-append target_dir (bare mask ∷ xs) ys = lines-append target_dir xs ys

  abbrev Shows : List ℕ → List Event × Ending → Option (List ℕ × Ending) → Type 0
  Shows target_dir (es, ending) r = r ≡ some (lines kernel target_dir es, ending)

  round-Shows :
      (fuel : ℕ) (target_dir : List ℕ) (stopped : Bool) (events : Option (List Event))
      (later : List Event × Ending) (rest : Option (List ℕ × Ending))
      → Delivered fuel events
      → Shows target_dir later rest
      → Shows target_dir (seen_from stopped events later) (
          if stopped
          then some ([], closed)
          else round_of kernel fuel target_dir (reading_of events) rest)
  unfolding lines
  round-Shows fuel target_dir true events later rest d e = refl
  round-Shows fuel target_dir false none later rest d e = refl
  round-Shows fuel target_dir false (some es) (more, ending) rest d e =
      rw (walk-lines kernel fuel target_dir es d.0 d.1, e)
        (ap (λ t. some (t, ending)) (sym (lines-append target_dir es more)))

  loop-Shows :
      (fuel : ℕ) (target_dir : List ℕ) (ds : List Delivery)
      → AllDelivered fuel ds
      → Shows target_dir (seen ds) (watch_loop kernel fuel target_dir (rounds_of ds))
  unfolding watch_loop rounds_of seen lines
  loop-Shows fuel target_dir [] all = refl
  loop-Shows fuel target_dir (d ∷ ds) all =
      round-Shows fuel target_dir d.stopped d.events (seen ds)
        (watch_loop kernel fuel target_dir (rounds_of ds)) all.0
        (loop-Shows fuel target_dir ds all.1)

  -- The directory that main watches, and whether it is there, is one, and inotify_init gives a
  -- descriptor.
  abbrev pub watched : Option (List ℕ) → List ℕ
  watched none = codes "/tmp"
  watched (some dir) = dir

  abbrev pub usable : (List ℕ → ℤ) → (List ℕ → Bool) → ℤ → List ℕ → Bool
  usable stat is_dir fd dir =
      not (eqb_ℤ (stat dir) (negsuc 0)) && (is_dir dir && not (ltb_ℤ fd (pos 0)))

  main-target :
      (fuel : ℕ) (dir : List ℕ) (stat : List ℕ → ℤ) (is_dir : List ℕ → Bool) (fd : ℤ)
      (ds : List Delivery)
      → AllDelivered fuel ds
      → watch_main kernel fuel (some dir) stat is_dir fd (rounds_of ds) ≡ (
          if usable stat is_dir fd dir
          then some (lines kernel dir ((seen ds).0), (seen ds).1)
          else some ([], exited))
  unfolding watch_main watcher
  main-target fuel dir stat is_dir fd ds all = ground (arith, loop-Shows fuel dir ds all)

  -- main ends with a failure and no line if the directory, its argument or else /tmp, cannot be
  -- examined or is none, or if there is no descriptor. In every other case it writes a line for each
  -- event with a name, of all reads in front of the first error or the first test that finds
  -- `stopped` set, in order; then it removes the watch and closes the descriptor. Without either it
  -- goes on to wait.
  pub watch_main-lines :
      (fuel : ℕ) (arg : Option (List ℕ)) (stat : List ℕ → ℤ) (is_dir : List ℕ → Bool) (fd : ℤ)
      (ds : List Delivery)
      → AllDelivered fuel ds
      → watch_main kernel fuel arg stat is_dir fd (rounds_of ds) ≡ (
          if usable stat is_dir fd (watched arg)
          then some (lines kernel (watched arg) ((seen ds).0), (seen ds).1)
          else some ([], exited))
  unfolding watch_main
  watch_main-lines fuel none stat is_dir fd ds all =
      main-target fuel (codes "/tmp") stat is_dir fd ds all
  watch_main-lines fuel (some dir) stat is_dir fd ds all =
      main-target fuel dir stat is_dir fd ds all
