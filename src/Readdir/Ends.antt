-- ===== src/Readdir/Ends.antt =====
-- The loop of src/backend/readdir.rs ends, whatever the sink answers.
use anymount.Prelude.{
  ℕ, zero, suc, ◌+◌, ◌-◌, ◌^◌, ◌≤◌, ◌<◌, ◌≡◌, refl, sym, ap, ◌∙◌, Bool, true, false, Option, some,
  List, [], ◌∷◌, ok, err, inl, inr, ◌==◌, Bool-cases, length, arith,
}
use anymount.Types.{Ino, DirEntry}
use anymount.Fs.{ReadOnlyFs, Step, ◌>>=◌}
use anymount.Readdir.Defs.{
  Sink, Entry, Dots, synthesize, omit, trait_offset, parent_of, emit_page, emit_pages, emit_dotdot,
  emit_dot, emit, dot, dotdot,
}
use anymount.Readdir.Steps.{
  Sink-cases, sent, dot_entry, dotdot_entry, page_accepted, page_full, pages_end, pages_err,
  pages_go, pages_stop,
}
use anymount.Readdir.Keeps.{page_cases}

-- A result of the source's own.
abbrev pub Given : {A : Type 0} → Option A → Type 0
Given {A} x = (a : A) × (x ≡ some a)

-- No directory has more than `limit` entries: a page that is not empty ends at the limit at the latest.
abbrev pub Bounded : ReadOnlyFs → ℕ → Type 0
Bounded F limit =
    (dir : Ino) (o : ℕ) (s : F.State) (e : DirEntry) (es : List DirEntry)
    → (F.readdir dir o s).0 ≡ ok (e ∷ es)
    → o + length (e ∷ es) ≤ limit

module _ (F : ReadOnlyFs) {T : Type 0} (sink : Entry → T → Step F.State (Sink × T)) where
  -- A page that the sink takes moves the offset behind it.
  page_moves :
      (page : List DirEntry) (o : ℕ) (t : T) (s : F.State)
      → o + length page + 3 < 2 ^ 64
      → (emit_page F sink page o t s).0.0 ≡ false
      → (emit_page F sink page o t s).0.1 ≡ o + length page
  page_moves [] o t s h go = unfold emit_page in omega arith
  page_moves (e ∷ page) o t s h go =
      let out = sink (sent o e) t s in
      elim (Sink-cases out.0.0) [
        | inl a ↦
            (let eq = page_accepted F sink e page o t s (omega arith) a in
              let next = emit_page F sink page (o + 1) out.0.1 out.1 in
              let rest =
                page_moves page (o + 1) out.0.1 out.1 (omega arith)
                  (sym (ap (λ (x : (Bool × ℕ × T) × F.State). x.0.0) eq) ∙ go) in
              ap (λ (x : (Bool × ℕ × T) × F.State). x.0.1) eq ∙ rest ∙ omega arith)
        | inr a ↦
            (let eq = page_full F sink e page o t s a in
              let stop : true ≡ false =
                sym (ap (λ (x : (Bool × ℕ × T) × F.State). x.0.0) eq) ∙ go in
              absurd (differ stop))
      ]
    where
      differ : true ≡ false → ⊥
      differ h = cc

  module _ (limit : ℕ) (bounded : Bounded F limit) (small : limit + 3 < 2 ^ 64) where
    pages-Given :
        (fuel : ℕ) (dir : Ino) (o : ℕ) (t : T) (s : F.State)
        → limit - o < fuel
        → Given (emit_pages F sink fuel dir o t s).0.0
    pages-Given zero dir o t s f = absurd (omega arith)
    pages-Given (suc fuel) dir o t s f =
        let s' = (F.readdir dir o s).1 in
        elim (page_cases (F.readdir dir o s).0) [
          | inl h ↦ rw (pages_end F sink fuel dir o t s h) (ok true, refl)
          | inr (inl (e, h)) ↦ rw (pages_err F sink fuel dir o t s e h) (err e, refl)
          | inr (inr (e, es, h)) ↦
              (let out = emit_page F sink (e ∷ es) o t s' in
                let room : o + length (e ∷ es) ≤ limit = bounded dir o s e es h in
                elim (Bool-cases out.0.0) [
                  | inr go ↦
                      (let moved = page_moves (e ∷ es) o t s' (omega (arith, room)) go in
                        rw (pages_go F sink fuel dir o t s e es h go)
                          (pages-Given fuel dir out.0.1 out.0.2 out.1 (omega (arith, moved, room))))
                  | inl stop ↦ rw (pages_stop F sink fuel dir o t s e es h stop) (ok false, refl)
                ])
        ]

    module _ (fuel : ℕ) (dir : Ino) (enough : limit < fuel) where
      dotdot-Given : (c : ℕ) (t : T) (s : F.State) → Given (emit_dotdot F sink fuel dir c t s).0.0
      unfolding emit_dotdot
      dotdot-Given c t s = elim (Bool-cases (c == dot)) [
        | inr other ↦ rw other (pages-Given fuel dir (trait_offset c) t s (omega arith))
        | inl same ↦
            (let up = parent_of F dir s in
              let out = sink (dotdot_entry up.0) t up.1 in
              elim (Sink-cases out.0.0) [
                | inl a ↦
                    rw (same, ◌>>=◌, a)
                      (pages-Given fuel dir (trait_offset dotdot) out.0.1 out.1 (omega arith))
                | inr a ↦ rw (same, ◌>>=◌, a) (ok false, refl)
              ])
      ]

      dot-Given : (c : ℕ) (t : T) (s : F.State) → Given (emit_dot F sink fuel dir c t s).0.0
      unfolding emit_dot
      dot-Given c t s = elim (Bool-cases (c == 0)) [
        | inr other ↦ rw other (dotdot-Given c t s)
        | inl same ↦
            (let out = sink (dot_entry dir) t s in
              elim (Sink-cases out.0.0) [
                | inl a ↦ rw (same, ◌>>=◌, a) (dotdot-Given dot out.0.1 out.1)
                | inr a ↦ rw (same, ◌>>=◌, a) (ok false, refl)
              ])
      ]

      -- Fuel for a round to each entry and one more is enough.
      pub emit-Given :
          (c : ℕ) (d : Dots) (t : T) (s : F.State) → Given (emit F sink fuel dir c d t s).0.0
      unfolding emit
      emit-Given c synthesize t s = dot-Given c t s
      emit-Given c omit t s = pages-Given fuel dir (trait_offset c) t s (omega arith)
