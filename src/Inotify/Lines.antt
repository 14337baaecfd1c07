-- ===== src/Inotify/Lines.antt =====
-- The loop of watcher in tools/inotify/inotify-watcher.c over the events of one read.
use code_slices.Base.{
  c_text, zeros, length-zeros, ℕ, zero, suc, ◌+◌, ◌≤◌, ◌<◌, ◌≡◌, refl, ◌∙◌, ap, false, some, List,
  [], ◌∷◌, ◌++◌, arith, length, le→ltb, ◌==◌, ◌>>=◌, take, drop, length-append, take-append,
  drop-append, IsText,
}
use code_slices.Inotify.{Kernel, event_line, dump_inotify_event, walk}

-- An event as the kernel writes it: with a name and some bytes of padding behind its 0, or without.
pub data Event : Type 0 where
  named : (mask : ℕ) (name : List ℕ) (padding : ℕ) → Event
  bare : (mask : ℕ) → Event

abbrev pub AreEvents : List Event → Type 0
AreEvents [] = Unit {0}
AreEvents (named mask name padding ∷ es) = IsText name × AreEvents es
AreEvents (bare mask ∷ es) = AreEvents es

c_text-zeros :
    (name : List ℕ) (padding : ℕ) → IsText name → c_text (name ++ 0 ∷ zeros padding) ≡ some name
unfolding c_text
c_text-zeros [] padding text = refl
c_text-zeros (c ∷ name) padding text =
    let more : (c == 0) ≡ false = ground (arith, text.0) in
    rw (more, c_text-zeros name padding text.1)

behind_name :
    (name : List ℕ) (padding : ℕ) (rest : List ℕ)
    → drop (length name + suc padding) ((name ++ 0 ∷ zeros padding) ++ rest) ≡ rest
behind_name name padding rest =
    let bytes = name ++ 0 ∷ zeros padding in
    let size : length name + suc padding ≡ length bytes + 0 =
      omega (arith, length-append name (0 ∷ zeros padding), length-zeros padding) in
    rw size (drop-append bytes rest 0)

module _ (kernel : Kernel) where
  open kernel use {
    event_size, mask_of, len_of, header, some_size, header_size, mask_header, len_header,
  }

  abbrev pub encode : List Event → List ℕ
  encode [] = []
  encode (named mask name padding ∷ es) =
      header mask (length name + suc padding) ++ ((name ++ 0 ∷ zeros padding) ++ encode es)
  encode (bare mask ∷ es) = header mask 0 ++ encode es

  -- A line for each event that has a name.
  unfoldable pub lines : List ℕ → List Event → List ℕ
  lines target_dir [] = []
  lines target_dir (named mask name padding ∷ es) =
      event_line kernel target_dir mask name ++ lines target_dir es
  lines target_dir (bare mask ∷ es) = lines target_dir es

  -- A round of the loop, with an event at the head of the buffer.
  round :
      (fuel : ℕ) (target_dir buffer : List ℕ)
      → event_size ≤ length buffer
      → walk kernel (suc fuel) target_dir buffer ≡ (
          dump_inotify_event kernel target_dir buffer >>= λ line.
          walk kernel fuel target_dir (drop (event_size + len_of buffer) buffer) >>= λ lines.
          some (line ++ lines))
  unfolding walk
  round fuel target_dir [] enough = absurd (omega (arith, some_size))
  round fuel target_dir (c ∷ buffer) enough = rw (le→ltb _ _ enough)

  behind_header :
      (mask len n : ℕ) (rest : List ℕ)
      → drop (event_size + n) (header mask len ++ rest) ≡ drop n rest
  behind_header mask len n rest = rw (← header_size mask len) (drop-append (header mask len) rest n)

  holds_header : (mask len : ℕ) (rest : List ℕ) → event_size ≤ length (header mask len ++ rest)
  holds_header mask len rest =
      omega (arith, header_size mask len, length-append (header mask len) rest)

  dump-named :
      (target_dir : List ℕ) (mask : ℕ) (name : List ℕ) (padding : ℕ) (rest : List ℕ)
      → IsText name
      → dump_inotify_event kernel target_dir
          (header mask (length name + suc padding) ++ ((name ++ 0 ∷ zeros padding) ++ rest))
        ≡ some (event_line kernel target_dir mask name)
  unfolding dump_inotify_event
  dump-named target_dir mask name padding rest text =
      let len = length name + suc padding in
      let bytes = name ++ 0 ∷ zeros padding in
      let more : (len == 0) ≡ false = ground arith in
      let size : len ≡ length bytes =
        omega (arith, length-append name (0 ∷ zeros padding), length-zeros padding) in
      let start : event_size ≡ event_size + 0 = omega arith in
      let there : drop event_size (header mask len ++ (bytes ++ rest)) ≡ bytes ++ rest =
        ap (λ k. drop k (header mask len ++ (bytes ++ rest))) start
        ∙ behind_header mask len 0 (bytes ++ rest) in
      let all : take len (bytes ++ rest) ≡ bytes =
        ap (λ k. take k (bytes ++ rest)) size ∙ take-append bytes rest in
      rw (
        len_header mask len (bytes ++ rest),
        more,
        there,
        all,
        c_text-zeros name padding text,
        mask_header mask len (bytes ++ rest),
      )

  dump-bare :
      (target_dir : List ℕ) (mask : ℕ) (rest : List ℕ)
      → dump_inotify_event kernel target_dir (header mask 0 ++ rest) ≡ some []
  unfolding dump_inotify_event
  dump-bare target_dir mask rest = rw (len_header mask 0 rest)

  -- Over the bytes of any sequence of events, with more fuel than there are events, the loop stays
  -- inside the bytes that were read, ends, and writes a line for each event with a name, in order.
  pub walk-lines :
      (fuel : ℕ) (target_dir : List ℕ) (es : List Event)
      → AreEvents es
      → length es < fuel
      → walk kernel fuel target_dir (encode es) ≡ some (lines target_dir es)
  unfolding lines
  walk-lines zero target_dir es all enough = elim enough [ ]
  walk-lines (suc fuel) target_dir [] all enough = unfold walk in refl
  walk-lines (suc fuel) target_dir (named mask name padding ∷ es) all enough =
      let len = length name + suc padding in
      let bytes = name ++ 0 ∷ zeros padding in
      rw (
        round fuel target_dir (header mask len ++ (bytes ++ encode es))
            (holds_header mask len (bytes ++ encode es)),
        dump-named target_dir mask name padding (encode es) all.0,
        len_header mask len (bytes ++ encode es),
        behind_header mask len len (bytes ++ encode es),
        behind_name name padding (encode es),
        walk-lines fuel target_dir es all.1 (omega arith),
      )
  walk-lines (suc fuel) target_dir (bare mask ∷ es) all enough = rw (
    round fuel target_dir (header mask 0 ++ encode es) (holds_header mask 0 (encode es)),
    dump-bare target_dir mask (encode es),
    len_header mask 0 (encode es),
    behind_header mask 0 0 (encode es),
    walk-lines fuel target_dir es all (omega arith),
  )
