-- ===== src/NfsMount/Label.antt =====
-- The volume label of src/backend/nfs/mod.rs, as a segment of an export path.
use anymount.Prelude.{ℕ, suc, ◌+◌, ◌≤◌, ◌≡◌, ◌≢◌, refl, false, ◌||◌, List, [], ◌∷◌, All}
use anymount.Prelude.{
  length, take, length-take, length-append, All-append, Bool-cases, inl, inr, ◌==◌, arith,
}
use anymount.NfsMount.Defs.{
  is_control, ends_with_dash, label_step, label_loop, trim_start, keep_char,
}
use anymount.NfsMount.Defs.{trim_end, or_default, volume_label, is_trimmed}

-- No separator and no control character.
abbrev pub IsPlain : ℕ → Type 0
IsPlain c = (c ≢ b'/') × (is_control c ≡ false)

label_step-IsPlain : (out : List ℕ) (ch : ℕ) → All IsPlain out → All IsPlain (label_step out ch)
unfolding label_step is_control
label_step-IsPlain out ch h = elim (Bool-cases (ch == b'/' || is_control ch)) [
  | inr fine ↦ rw fine (All-append IsPlain out (ch ∷ []) h ((ground arith, ground arith), tt))
  | inl bad ↦ elim (Bool-cases (ends_with_dash out)) [
    | inl d ↦ rw (bad, d) h
    | inr n ↦ rw (bad, n) (All-append IsPlain out (b'-' ∷ []) h ((omega arith, refl), tt))
  ]
]

length-label_step : (out : List ℕ) (ch : ℕ) → length (label_step out ch) ≤ length out + 1
unfolding label_step
length-label_step out ch =
    ground (arith, length-append out (ch ∷ []), length-append out (b'-' ∷ []))

label_loop-IsPlain : (out chars : List ℕ) → All IsPlain out → All IsPlain (label_loop out chars)
unfolding label_loop
label_loop-IsPlain out [] h = h
label_loop-IsPlain out (ch ∷ chars) h =
    label_loop-IsPlain (label_step out ch) chars (label_step-IsPlain out ch h)

length-label_loop : (out chars : List ℕ) → length (label_loop out chars) ≤ length out + length chars
unfolding label_loop
length-label_loop out [] = omega arith
length-label_loop out (ch ∷ chars) =
    omega (arith, length-label_loop (label_step out ch) chars, length-label_step out ch)

trim_start_part :
    (cs : List ℕ)
    → All IsPlain cs
    → All IsPlain (trim_start cs) × (length (trim_start cs) ≤ length cs)
unfolding trim_start
trim_start_part [] h = (tt, omega arith)
trim_start_part (c ∷ cs) h = elim (Bool-cases (is_trimmed c)) [
  | inl t ↦ rw t ((trim_start_part cs h.1).0, omega (arith, (trim_start_part cs h.1).1))
  | inr f ↦ rw f (h, omega arith)
]

keep_char_part :
    (c : ℕ) (rest : List ℕ)
    → IsPlain c
    → All IsPlain rest
    → All IsPlain (keep_char c rest) × (length (keep_char c rest) ≤ suc (length rest))
keep_char_part c [] p h = elim (Bool-cases (is_trimmed c)) [
  | inl t ↦ rw t (tt, omega arith)
  | inr f ↦ rw f ((p, tt), omega arith)
]
keep_char_part c (d ∷ rest) p h = ((p, h), omega arith)

trim_end_part :
    (cs : List ℕ) → All IsPlain cs → All IsPlain (trim_end cs) × (length (trim_end cs) ≤ length cs)
unfolding trim_end
trim_end_part [] h = (tt, omega arith)
trim_end_part (c ∷ cs) h =
    let ih = trim_end_part cs h.1 in
    let step = keep_char_part c (trim_end cs) h.0 ih.0 in (step.0, omega (arith, step.1, ih.1))

or_default_part :
    (cs : List ℕ)
    → All IsPlain cs
    → length cs ≤ 64
    → All IsPlain (or_default cs) × (or_default cs ≢ []) × (length (or_default cs) ≤ 64)
unfolding is_control
or_default_part [] h l = (ground arith, λ e. cc, omega arith)
or_default_part (c ∷ cs) h l = (h, λ e. cc, l)

-- Whatever name the caller gives, the volume label is not empty, has at most 64 characters, and none
-- of them is a slash or a control character: it adds one segment to the export path.
pub volume_label-IsPlain :
    (fs_name : List ℕ)
    → All IsPlain (volume_label fs_name)
      × (volume_label fs_name ≢ [])
      × (length (volume_label fs_name) ≤ 64)
unfolding volume_label
volume_label-IsPlain fs_name =
    let chars = take 64 fs_name in
    let looped = label_loop-IsPlain [] chars tt in
    let started = trim_start_part (label_loop [] chars) looped in
    let ended = trim_end_part (trim_start (label_loop [] chars)) started.0 in
    or_default_part (trim_end (trim_start (label_loop [] chars))) ended.0
      (omega (arith, ended.1, started.1, length-label_loop [] chars, length-take 64 fs_name))
