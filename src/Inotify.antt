-- ===== src/Inotify.antt =====
-- tools/inotify/inotify-watcher.c: events read from an inotify descriptor, a line for each.
-- `none` is an access outside the bytes that were read, or exhausted fuel.
pub mod Lines
pub mod Watch
mod Tests
use code_slices.Base.{
  ℕ, zero, suc, ◌+◌, ◌-◌, ◌<◌, ◌≡◌, Bool, true, false, not, Option, none, some, List, [], ◌∷◌, ◌++◌,
  ltb, ◌==◌, bit_and, if◌then◌else◌, ◌>>=◌, codes, length, take, drop, c_text,
}
use code_slices.Base.Int.{ℤ, pos, ltb_ℤ, eqb_ℤ, negsuc}

-- What the code relies on of sys/inotify.h: the constants, the size of `struct inotify_event`, and
-- how the struct at the head of a buffer is read. `header` is what the kernel puts in front of a
-- name.
pub record Kernel : Type 0 where
  pub in_open : ℕ
  pub in_close : ℕ
  pub in_create : ℕ
  pub in_delete : ℕ
  pub in_modify : ℕ
  pub in_moved_from : ℕ
  pub in_moved_to : ℕ
  pub in_isdir : ℕ
  pub event_size : ℕ
  pub mask_of : List ℕ → ℕ
  pub len_of : List ℕ → ℕ
  pub header : (mask len : ℕ) → List ℕ
  pub some_size : 0 < event_size
  pub header_size : (mask len : ℕ) → length (header mask len) ≡ event_size
  pub mask_header : (mask len : ℕ) (rest : List ℕ) → mask_of (header mask len ++ rest) ≡ mask
  pub len_header : (mask len : ℕ) (rest : List ℕ) → len_of (header mask len ++ rest) ≡ len

-- `event_mask & bits`, as a condition.
abbrev pub any_bit : ℕ → ℕ → Bool
any_bit event_mask bits = not (bit_and event_mask bits == 0)

-- `%-6s`
abbrev pub spaces : ℕ → List ℕ
spaces zero = []
spaces (suc n) = b' ' ∷ spaces n

module _ (kernel : Kernel) where
  open kernel use {
    in_open, in_close, in_create, in_delete, in_modify, in_moved_from, in_moved_to, in_isdir,
    event_size, mask_of, len_of,
  }

  unfoldable pub event_to_str : ℕ → List ℕ
  event_to_str event_mask =
      if any_bit event_mask in_open
      then codes "OPEN"
      else (if any_bit event_mask in_close
          then codes "CLOSE"
          else (if any_bit event_mask in_create
              then codes "CREATE"
              else (if any_bit event_mask in_delete
                  then codes "DELETE"
                  else (if any_bit event_mask in_modify
                      then codes "MODIFY"
                      else (if any_bit event_mask in_moved_from
                          then codes "MOVEFR"
                          else (if any_bit event_mask in_moved_to
                              then codes "MOVETO"
                              else codes "OTHER"))))))

  -- `printf("%-6s %s %s/%s\n", …)`, with the name's bytes.
  unfoldable pub event_line : List ℕ → ℕ → List ℕ → List ℕ
  unfolding event_to_str
  event_line target_dir mask name =
      let kind = event_to_str mask in
      kind
      ++ (spaces (6 - length kind)
          ++ (b' '
              ∷ (if any_bit mask in_isdir then b'D' else b'F')
              ∷ b' '
              ∷ (target_dir ++ (b'/' ∷ (name ++ 10 ∷ [])))))

  -- dump_inotify_event for the event at the head of the buffer.
  unfoldable pub dump_inotify_event : List ℕ → List ℕ → Option (List ℕ)
  unfolding event_line c_text
  dump_inotify_event target_dir buffer = if len_of buffer == 0 then some [] else (do
    name ← c_text (take (len_of buffer) (drop event_size buffer))
    some (event_line target_dir (mask_of buffer) name))

  -- `while (i < length)`, with the bytes from `i` on.
  unfoldable pub walk : ℕ → List ℕ → List ℕ → Option (List ℕ)
  unfolding dump_inotify_event
  walk zero target_dir buffer = none
  walk (suc fuel) target_dir [] = some []
  walk (suc fuel) target_dir (c ∷ buffer) =
      if ltb (length (c ∷ buffer)) event_size then none else (do
        line ← dump_inotify_event target_dir (c ∷ buffer)
        lines ← walk fuel target_dir (drop (event_size + len_of (c ∷ buffer)) (c ∷ buffer))
        some (line ++ lines))

-- A round of the loop of watcher: what read gives, and `stopped` as the test in front of it finds it.
pub data Reading : Type 0 where
  fails : Reading
  bytes : List ℕ → Reading

pub record Round : Type 0 where
  pub stopped : Bool
  pub reading : Reading

-- How a run stands: exited with a failure; it waits in read; it has returned, after the removal of
-- the watch and the closing of the descriptor.
pub data Ending : Type 0 where
  exited waiting closed : Ending

module _ (kernel : Kernel) where
  abbrev pub add_lines : List ℕ → List ℕ × Ending → Option (List ℕ × Ending)
  add_lines lines (more, ending) = some (lines ++ more, ending)

  abbrev pub round_of : ℕ → List ℕ → Reading → Option (List ℕ × Ending) → Option (List ℕ × Ending)
  round_of fuel target_dir fails later = some ([], closed)
  round_of fuel target_dir (bytes buffer) later = do
    lines ← walk kernel fuel target_dir buffer
    rest ← later
    add_lines lines rest

  unfoldable pub watch_loop : ℕ → List ℕ → List Round → Option (List ℕ × Ending)
  watch_loop fuel target_dir [] = some ([], waiting)
  watch_loop fuel target_dir (r ∷ rounds) =
      let later = watch_loop fuel target_dir rounds in
      if r.stopped then some ([], closed) else round_of fuel target_dir r.reading later

  -- `fd` is what inotify_init returns.
  unfoldable pub watcher : ℕ → ℤ → List ℕ → List Round → Option (List ℕ × Ending)
  unfolding watch_loop
  watcher fuel fd target_dir rounds =
      if ltb_ℤ fd (pos 0) then some ([], exited) else watch_loop fuel target_dir rounds

  -- main: `arg` is its argument, `stat` what stat returns for the directory, and `is_dir` whether it
  -- is one. TARGET_DIR is "/tmp".
  unfoldable pub watch_main :
      ℕ
      → Option (List ℕ)
      → (stat : List ℕ → ℤ) → (is_dir : List ℕ → Bool) → ℤ
      → List Round
      → Option (List ℕ × Ending)
  unfolding watcher
  watch_main fuel arg stat is_dir fd rounds =
      let target_dir : List ℕ = elim arg [ none ↦ codes "/tmp" | some dir ↦ dir ] in
      if eqb_ℤ (stat target_dir) (negsuc 0)
      then some ([], exited)
      else (if not (is_dir target_dir)
          then some ([], exited)
          else watcher fuel fd target_dir rounds)
