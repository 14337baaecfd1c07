-- ===== src/StringFind/Find.antt =====
-- string_find of c/string-find.c on texts: it finds the first place.
use Prim.Native.Nat.{◌*◌}
use code_slices.Base.{
  ℕ, zero, suc, ◌+◌, ◌-◌, ◌%◌, ◌^◌, ◌≤◌, ◌<◌, ◌≡◌, ◌≢◌, refl, ◌∙◌, sym, ap, some, List, arith, ◌==◌,
  leb, if◌then◌else◌, length, dec_lt, ℕ_discrete, get_elem?, get_elem?-some,
}
use code_slices.Base.Int.{ℤ, pos, negsuc, ◌-ℤ◌, ◌+ℤ◌, int_max, to_int, fits_int}
use code_slices.StringFind.{c_str, string_find_recurse, string_find}
use code_slices.StringFind.Text.{
  IsText, get_elem?-inside, get_elem?-end, lt_of_some, IsText-nonzero, string_len-length,
}

-- The first `n` bytes of `dst` stand in `str` from `at` on.
abbrev pub MatchedTo : List ℕ → List ℕ → ℕ → ℕ → Type 0
MatchedTo str dst at n = (i : ℕ) → i < n → get_elem? str (at + i) ≡ get_elem? dst i

abbrev pub OccursAt : List ℕ → List ℕ → ℕ → Type 0
OccursAt str dst at = MatchedTo str dst at (length dst)

-- The result names the first place where `dst` occurs, or is -1 if there is none.
pub data FirstAt (str dst : List ℕ) (r : ℤ) : Type 0 where
  found :
      (at : ℕ)
      → r ≡ pos at
      → OccursAt str dst at
      → ((q : ℕ) → q < at → ¬ OccursAt str dst q)
      → FirstAt str dst r
  absent : r ≡ negsuc 0 → ((q : ℕ) → ¬ OccursAt str dst q) → FirstAt str dst r

-- One call of string_find_recurse, with the two bytes that it compares.
find_round :
    (fuel at t sl dl c e : ℕ) (str dst : List ℕ)
    → t ≤ dl
    → dl ≤ sl
    → at < sl
    → sl ≤ int_max
    → 1 ≤ t
    → get_elem? str (at + (dl - t)) ≡ some c
    → get_elem? dst (dl - t) ≡ some e
    → string_find_recurse (suc fuel) str dst at (pos sl) (pos dl) (pos t) ≡ (
        if c == e
        then (if t == 1
            then some (pos at)
            else string_find_recurse fuel str dst at (pos sl) (pos dl) (pos (t - 1)))
        else (if leb (sl - t) at
            then some (negsuc 0)
            else string_find_recurse fuel str dst (at + 1) (pos sl) (pos dl) (pos dl)))
unfolding string_find_recurse ◌-ℤ◌ ◌+ℤ◌
find_round fuel at t sl dl c e str dst td ds inside small one rc re =
    let off : fits_int (pos dl -ℤ pos t) ≡ some (pos (dl - t)) = ground arith in
    let spc : fits_int (pos sl -ℤ pos t) ≡ some (pos (sl - t)) = ground arith in
    let dec : fits_int (pos t -ℤ pos 1) ≡ some (pos (t - 1)) = ground arith in
    let sum : pos at +ℤ pos (dl - t) ≡ pos (at + (dl - t)) = ground arith in
    let nxt : (at + 1) % 2 ^ 64 ≡ at + 1 = omega arith in
    let siz : (sl - t) % 2 ^ 64 ≡ sl - t = omega arith in
    let int : to_int at ≡ pos at = ground arith in
    let zer : t + 0 ≡ t = omega arith in rw (off, sum, rc, re, dec, spc, nxt, siz, int, zer)

MatchedTo-suc :
    (str dst : List ℕ) (at n c : ℕ)
    → MatchedTo str dst at n
    → get_elem? str (at + n) ≡ some c
    → get_elem? dst n ≡ some c
    → MatchedTo str dst at (suc n)
MatchedTo-suc str dst at n c m es ed i lt = elim (dec_lt i n) [
  | yes before ↦ m i before
  | no last ↦ let e : i ≡ n = omega arith in rw e (es ∙ sym ed)
]

-- A place where all of a non-empty `dst` stands leaves room for it.
OccursAt-fits :
    (str dst : List ℕ) (at : ℕ)
    → 0 < length dst
    → OccursAt str dst at
    → at + length dst ≤ length str
OccursAt-fits str dst at some_there occ =
    let (e, last) = get_elem?-some dst (length dst - 1) (omega arith) in
    omega
      (arith, lt_of_some str (at + (length dst - 1)) (occ (length dst - 1) (omega arith) ∙ last))

module _ (str dst : List ℕ) (dst_text : IsText dst) (filled : 0 < length dst)
    (fits : length dst ≤ length str) (small : length str ≤ int_max) where
  abbrev sl : ℕ
  sl = length str

  abbrev dl : ℕ
  dl = length dst

  -- What holds when string_find_recurse is called with `t` bytes left to compare at `at`.
  record Searching (at t : ℕ) : Type 0 where
    left : 1 ≤ t
    most : t ≤ dl
    inside : at < sl
    reach : at + (dl - t) ≤ sl
    matched : MatchedTo str dst at (dl - t)
    before : (q : ℕ) → q < at → ¬ OccursAt str dst q

  -- The bytes that a call compares, and that they tell a match from a mismatch.
  record Round (at t : ℕ) : Type 0 where
    here : ℕ
    wanted : ℕ
    read_here : get_elem? (c_str str) (at + (dl - t)) ≡ some here
    read_wanted : get_elem? (c_str dst) (dl - t) ≡ some wanted
    on_match : here ≡ wanted → MatchedTo str dst at (suc (dl - t)) × (at + suc (dl - t) ≤ sl)
    on_mismatch : here ≢ wanted → ¬ OccursAt str dst at

  round : (at t : ℕ) → Searching at t → Round at t
  round at t s =
      let (w, ew) = get_elem?-some dst (dl - t) (omega arith) in
      elim (dec_lt (at + (dl - t)) sl) [
        | yes below ↦
            let (c, ec) = get_elem?-some str (at + (dl - t)) below in
            record {
              here = c;
              wanted = w;
              read_here = get_elem?-inside str (at + (dl - t)) below ∙ ec;
              read_wanted = get_elem?-inside dst (dl - t) (omega arith) ∙ ew;
              on_match = λ e.
                  (MatchedTo-suc str dst at (dl - t) w s.matched (ec ∙ ap some e) ew, omega arith);
              on_mismatch = λ ne occ. let e = occ (dl - t) (omega arith) in ne (cc);
            }
        | no past ↦ record {
          here = 0;
          wanted = w;
          read_here = get_elem?-end str (at + (dl - t)) (omega arith);
          read_wanted = get_elem?-inside dst (dl - t) (omega arith) ∙ ew;
          on_match = λ e. absurd (IsText-nonzero dst (dl - t) dst_text ew (sym e));
          on_mismatch = λ ne occ. omega (arith, OccursAt-fits str dst at filled occ);
        }
      ]

  abbrev Answers : ℕ → ℕ → ℕ → Type 0
  Answers fuel at t =
      (r : ℤ) × (string_find_recurse fuel (c_str str) (c_str dst) at (pos sl) (pos dl) (pos t)
        ≡ some r)
      × FirstAt str dst r

  matched_on :
      (at t : ℕ) (s : Searching at t) (k : Round at t)
      → k.here ≡ k.wanted
      → t ≢ 1
      → Searching at (t - 1)
  matched_on at t s k e ne =
      let n : dl - (t - 1) ≡ suc (dl - t) = omega arith in
      record {
        left = omega arith;
        most = omega arith;
        inside = s.inside;
        reach = omega (arith, (k.on_match e).1);
        matched = rw n ((k.on_match e).0);
        before = s.before;
      }

  moved_on :
      (at t : ℕ) (s : Searching at t) (k : Round at t)
      → k.here ≢ k.wanted
      → at < sl - t
      → Searching (at + 1) dl
  moved_on at t s k ne room = record {
    left = filled;
    most = omega arith;
    inside = omega arith;
    reach = omega arith;
    matched = λ i lt. absurd (omega arith);
    before = λ q lt. elim (dec_lt q at) [
      | yes old ↦ s.before q old
      | no last ↦ (let e : q ≡ at = omega arith in rw e (k.on_mismatch ne))
    ];
  }

  nowhere :
      (at t : ℕ) (s : Searching at t) (k : Round at t)
      → k.here ≢ k.wanted
      → ¬ (at < sl - t)
      → (q : ℕ) → ¬ OccursAt str dst q
  nowhere at t s k ne full q occ = elim (dec_lt q at) [
    | yes old ↦ s.before q old occ
    | no late ↦ elim (ℕ_discrete q at) [
      | yes e ↦ k.on_mismatch ne (rw e at occ)
      | no ahead ↦ omega (arith, OccursAt-fits str dst q filled occ)
    ]
  ]

  fuel_falls :
      (fuel at t : ℕ)
      → Searching at t
      → (sl - at) * (dl + 1) + t < suc fuel
      → (sl - (at + 1)) * (dl + 1) + dl < fuel
  fuel_falls fuel at t s enough =
      let e : sl - at ≡ suc (sl - (at + 1)) = omega arith in
      omega (arith, ap (λ (x : ℕ). x * (dl + 1)) e)

  recurse-Answers :
      (fuel at t : ℕ) → Searching at t → (sl - at) * (dl + 1) + t < fuel → Answers fuel at t
  recurse-Answers zero at t s enough = elim enough [ ]
  recurse-Answers (suc fuel) at t s enough =
      let k = round at t s in
      rw
        (find_round fuel at t sl dl k.here k.wanted (c_str str) (c_str dst) s.most fits s.inside
          small s.left k.read_here k.read_wanted)
        (elim (ℕ_discrete k.here k.wanted) [
          | yes e ↦ elim (ℕ_discrete t 1) [
            | yes last ↦
                (let n : suc (dl - t) ≡ dl = omega arith in
                  (pos at, ground arith, found at refl (rw n at ((k.on_match e).0)) s.before))
            | no more ↦
                let (r, er, first) =
                  recurse-Answers fuel at (t - 1) (matched_on at t s k e more) (omega arith) in
                (r, ground (arith, er), first)
          ]
          | no ne ↦ elim (dec_lt at (sl - t)) [
            | yes room ↦
                let (r, er, first) =
                  recurse-Answers fuel (at + 1) dl (moved_on at t s k ne room)
                    (fuel_falls fuel at t s enough) in
                (r, ground (arith, er), first)
            | no full ↦ (negsuc 0, ground arith, absent refl (nowhere at t s k ne full))
          ]
        ])

-- On texts no longer than an `int` counts, with a target that is not empty and enough fuel,
-- string_find reads only inside the two buffers, overflows nothing and returns: the first place
-- where the target occurs, or -1 if it occurs nowhere.
pub string_find-FirstAt :
    (fuel : ℕ) (str dst : List ℕ)
    → IsText str
    → IsText dst
    → 0 < length dst
    → length str ≤ int_max
    → length dst ≤ int_max
    → (length str + 1) * (length dst + 1) < fuel
    → (r : ℤ) × (string_find fuel (some (c_str str)) (some (c_str dst)) ≡ some r)
      × FirstAt str dst r
unfolding string_find
string_find-FirstAt fuel str dst ts td filled ss sd enough =
    let i1 : to_int (length str) ≡ pos (length str) = ground arith in
    let i2 : to_int (length dst) ≡ pos (length dst) = ground arith in
    let whole : length str - 0 ≡ length str = omega arith in
    rw (string_len-length str ts ss, string_len-length dst td sd, i1, i2)
      (elim (dec_lt (length str) (length dst)) [
        | yes short ↦ (
          negsuc 0,
          ground arith,
          absent refl λ q occ. omega (arith, OccursAt-fits str dst q filled occ),
        )
        | no fits ↦
            let (r, er, first) =
              recurse-Answers str dst td filled (omega arith) ss fuel 0 (length dst)
                (record {
                  left = filled;
                  most = omega arith;
                  inside = omega arith;
                  reach = omega arith;
                  matched = λ i lt. absurd (omega arith);
                  before = λ q lt. absurd (omega arith);
                })
                (rw whole (omega arith)) in
            (r, ground (arith, er), first)
      ])
