-- ===== src/Rpc/Chunks.antt =====
-- The read loops of src/backend/nfs/rpc.rs on a stream that does not fail, in whatever chunks.
use anymount.Prelude.{ℕ, zero, suc, ◌+◌, ◌-◌, ◌≤◌, ◌≡◌, refl, sym, ap, ◌∙◌}
use anymount.Prelude.{true, false, some, List, [], ◌∷◌, ◌++◌, ok, arith}
use anymount.Prelude.{length, take, drop, leb, append_assoc, append-nil, Bool-cases, inl, inr}
use anymount.Prelude.{take-append_le, take-append_ge, drop-append_le, drop-append_ge, length-append}
use anymount.Prelude.{leb→le}
use anymount.Stream.{Stream, chunk, failed, unread, read_exact}
use anymount.Rpc.Defs.{read_exact_or_eof}

-- All the bytes that a stream delivers.
unfoldable pub bytes_of : Stream → List ℕ
bytes_of [] = []
bytes_of (chunk b bs ∷ s) = (b ∷ bs) ++ bytes_of s
bytes_of (failed e ∷ s) = bytes_of s

-- No read of the stream fails.
abbrev pub IsClean : Stream → Type 0
IsClean [] = Unit
IsClean (chunk b bs ∷ s) = IsClean s
IsClean (failed e ∷ s) = ⊥

pub unread-bytes_of :
    (bs : List ℕ) (s : Stream)
    → IsClean s
    → (bytes_of (unread bs s) ≡ bs ++ bytes_of s) × IsClean (unread bs s)
unfolding unread bytes_of
unread-bytes_of [] s h = (refl, h)
unread-bytes_of (b ∷ bs) s h = (refl, h)

abbrev pub Took : (want : ℕ) (got : List ℕ) (s : Stream) → List ℕ × Stream → Type 0
Took want got s (bytes, s') =
    (bytes ≡ got ++ take want (bytes_of s)) × (bytes_of s' ≡ drop want (bytes_of s)) × IsClean s'

-- The rest of a stream whose first chunk is enough, or is not.
Took-chunk :
    (want : ℕ) (got : List ℕ) (b : ℕ) (bs : List ℕ) (s : Stream)
    → IsClean s
    → want ≤ length (b ∷ bs)
    → Took want got (chunk b bs ∷ s) (got ++ take want (b ∷ bs), unread (drop want (b ∷ bs)) s)
unfolding bytes_of
Took-chunk want got b bs s c h =
    let u = unread-bytes_of (drop want (b ∷ bs)) s c in
    (
      ap (◌++◌ got) (sym (take-append_le want (b ∷ bs) (bytes_of s) h)),
      u.0 ∙ sym (drop-append_le want (b ∷ bs) (bytes_of s) h),
      u.1,
    )

Took-more :
    (want : ℕ) (got : List ℕ) (b : ℕ) (bs : List ℕ) (s : Stream) (out : List ℕ × Stream)
    → length (b ∷ bs) ≤ want
    → Took (want - length (b ∷ bs)) (got ++ (b ∷ bs)) s out
    → Took want got (chunk b bs ∷ s) out
unfolding bytes_of
Took-more want got b bs s out h (p, q, c) = (
  p
      ∙ append_assoc got (b ∷ bs) _
      ∙ ap (◌++◌ got) (sym (take-append_ge want (b ∷ bs) (bytes_of s) h)),
  q ∙ sym (drop-append_ge want (b ∷ bs) (bytes_of s) h),
  c,
)

pub length-bytes_of :
    (b : ℕ) (bs : List ℕ) (s : Stream)
    → length (bytes_of (chunk b bs ∷ s)) ≡ length (b ∷ bs) + length (bytes_of s)
unfolding bytes_of
length-bytes_of b bs s = length-append (b ∷ bs) (bytes_of s)

pub leb-false : (a b : ℕ) → leb a b ≡ false → b ≤ a
leb-false a b h = ground arith

pub header_short :
    (want : ℕ) (got : List ℕ) (b : ℕ) (bs : List ℕ) (s : Stream)
    → leb (suc want) (length (b ∷ bs)) ≡ false
    → read_exact_or_eof (suc want) got (chunk b bs ∷ s)
      ≡ read_exact_or_eof (suc want - length (b ∷ bs)) (got ++ (b ∷ bs)) s
unfolding read_exact_or_eof
header_short want got b bs s h = rw h

header_enough :
    (want : ℕ) (got : List ℕ) (b : ℕ) (bs : List ℕ) (s : Stream)
    → leb (suc want) (length (b ∷ bs)) ≡ true
    → read_exact_or_eof (suc want) got (chunk b bs ∷ s)
      ≡ (ok (some (got ++ take (suc want) (b ∷ bs))), unread (drop (suc want) (b ∷ bs)) s)
unfolding read_exact_or_eof
header_enough want got b bs s h = rw h

-- The two loops fill their buffer from a clean stream that holds enough bytes.
pub header_reads :
    (want : ℕ) (got : List ℕ) (s : Stream)
    → IsClean s
    → want ≤ length (bytes_of s)
    → (out : List ℕ × Stream) × (read_exact_or_eof want got s ≡ (ok (some out.0), out.1))
      × Took want got s out
header_reads zero got s c h =
    ((got, s), unfold read_exact_or_eof in refl, (sym (append-nil got), refl, c))
header_reads (suc want) got [] c h = absurd (unfold bytes_of in omega arith)
header_reads (suc want) got (failed e ∷ s) c h = absurd c
header_reads (suc want) got (chunk b bs ∷ s) c h =
    elim (Bool-cases (leb (suc want) (length (b ∷ bs)))) [
      | inl enough ↦ (
        (got ++ take (suc want) (b ∷ bs), unread (drop (suc want) (b ∷ bs)) s),
        header_enough want got b bs s enough,
        Took-chunk (suc want) got b bs s c (leb→le _ _ enough),
      )
      | inr short ↦
          let (out, e, took) =
            header_reads (suc want - length (b ∷ bs)) (got ++ (b ∷ bs)) s c
              (omega (arith, length-bytes_of b bs s)) in
          (
            out,
            header_short want got b bs s short ∙ e,
            Took-more (suc want) got b bs s out (leb-false _ _ short) took,
          )
    ]

body_short :
    (want : ℕ) (got : List ℕ) (b : ℕ) (bs : List ℕ) (s : Stream)
    → leb (suc want) (length (b ∷ bs)) ≡ false
    → read_exact (suc want) got (chunk b bs ∷ s)
      ≡ read_exact (suc want - length (b ∷ bs)) (got ++ (b ∷ bs)) s
unfolding read_exact
body_short want got b bs s h = rw h

body_enough :
    (want : ℕ) (got : List ℕ) (b : ℕ) (bs : List ℕ) (s : Stream)
    → leb (suc want) (length (b ∷ bs)) ≡ true
    → read_exact (suc want) got (chunk b bs ∷ s)
      ≡ (ok (got ++ take (suc want) (b ∷ bs)), unread (drop (suc want) (b ∷ bs)) s)
unfolding read_exact
body_enough want got b bs s h = rw h

pub body_reads :
    (want : ℕ) (got : List ℕ) (s : Stream)
    → IsClean s
    → want ≤ length (bytes_of s)
    → (out : List ℕ × Stream) × (read_exact want got s ≡ (ok out.0, out.1)) × Took want got s out
body_reads zero got s c h = ((got, s), unfold read_exact in refl, (sym (append-nil got), refl, c))
body_reads (suc want) got [] c h = absurd (unfold bytes_of in omega arith)
body_reads (suc want) got (failed e ∷ s) c h = absurd c
body_reads (suc want) got (chunk b bs ∷ s) c h =
    elim (Bool-cases (leb (suc want) (length (b ∷ bs)))) [
      | inl enough ↦ (
        (got ++ take (suc want) (b ∷ bs), unread (drop (suc want) (b ∷ bs)) s),
        body_enough want got b bs s enough,
        Took-chunk (suc want) got b bs s c (leb→le _ _ enough),
      )
      | inr short ↦
          let (out, e, took) =
            body_reads (suc want - length (b ∷ bs)) (got ++ (b ∷ bs)) s c
              (omega (arith, length-bytes_of b bs s)) in
          (
            out,
            body_short want got b bs s short ∙ e,
            Took-more (suc want) got b bs s out (leb-false _ _ short) took,
          )
    ]
