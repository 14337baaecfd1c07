-- ===== src/Inotify/Tests.antt =====
-- Events of tools/inotify/inotify-watcher.c with the masks of Linux, and the theorems at an input.
use code_slices.Base.{ℕ, ◌≡◌, refl, true, false, none, some, List, [], ◌∷◌, ◌++◌, arith, codes}
use code_slices.Base.Int.{pos, negsuc}
use code_slices.Inotify.{Kernel, event_line, walk, closed, exited, watch_main, event_to_str}
use code_slices.Inotify.Lines.{Event, named, bare, encode, lines, walk-lines}
use code_slices.Inotify.Watch.{Delivery, rounds_of, seen, watch_main-lines}

abbrev first : List ℕ → ℕ
first [] = 0
first (c ∷ s) = c

abbrev second : List ℕ → ℕ
second [] = 0
second (c ∷ s) = first s

-- The masks of Linux, and a struct of the mask and the length.
abbrev linux : Kernel
linux = record {
  in_open = 0x20;
  in_close = 0x18;
  in_create = 0x100;
  in_delete = 0x200;
  in_modify = 0x2;
  in_moved_from = 0x40;
  in_moved_to = 0x80;
  in_isdir = 0x40000000;
  event_size = 2;
  mask_of = first;
  len_of = second;
  header = λ mask len. mask ∷ len ∷ [];
  some_size = omega arith;
  header_size = λ mask len. refl;
  mask_header = λ mask len rest. refl;
  len_header = λ mask len rest. refl;
}

abbrev events : List Event
events = named 0x100 (codes "a.txt") 2 ∷ bare 0x20 ∷ named 0x40000200 (codes "sub") 0 ∷ []

abbrev tmp : List ℕ
tmp = codes "/tmp"

walk-lines_example : walk linux 4 tmp (encode linux events) ≡ some (lines linux tmp events)
walk-lines_example = walk-lines linux 4 tmp events (ground arith) (omega arith)

abbrev deliveries : List Delivery
deliveries =
    record { stopped = false; events = some events }
    ∷ record { stopped = false; events = some (named 0x8 (codes "b") 0 ∷ []) }
    ∷ record { stopped = true; events = none }
    ∷ []

watch_main-lines_example :
    watch_main linux 4 (some tmp) (λ dir. pos 0) (λ dir. true) (pos 3) (rounds_of linux deliveries)
    ≡ some (lines linux tmp ((seen linux deliveries).0), (seen linux deliveries).1)
watch_main-lines_example =
    watch_main-lines linux 4 (some tmp) (λ dir. pos 0) (λ dir. true) (pos 3) deliveries
      (ground arith)

created : event_line linux tmp 0x100 (codes "a.txt") ≡ codes "CREATE F /tmp/a.txt" ++ 10 ∷ []
unfolding event_line
created = refl

deleted : event_line linux tmp 0x40000200 (codes "sub") ≡ codes "DELETE D /tmp/sub" ++ 10 ∷ []
unfolding event_line
deleted = refl

-- Only the first kind that fits is written.
two_kinds : event_to_str linux 0x102 ≡ codes "CREATE"
unfolding event_to_str
two_kinds = refl

-- A name with no 0 in the bytes that belong to it is read past its end.
unterminated : walk linux 4 tmp (0x100 ∷ 2 ∷ b'a' ∷ b'b' ∷ []) ≡ none
unfolding walk
unterminated = refl

stops : (seen linux deliveries).1 ≡ closed
unfolding seen
stops = refl

no_directory :
    watch_main linux 4 none (λ dir. negsuc 0) (λ dir. true) (pos 3) [] ≡ some ([], exited)
unfolding watch_main
no_directory = refl
