-- ===== src/Readdir/Keeps.antt =====
-- Properties of the sink of src/backend/readdir.rs along the walk.
use anymount.Prelude.{ℕ, zero, suc, List, [], ◌∷◌}
use anymount.Prelude.{ok, err, Bool-cases, inl, inr, ◌⊎◌, ◌==◌, ◌≡◌, refl}
use anymount.Error.{FsError}
use anymount.Types.{Ino, DirEntry}
use anymount.Fs.{ReadOnlyFs, Step, ◌>>=◌, FsResult}
use anymount.Readdir.Defs.{Sink, Entry, Dots, synthesize, omit}
use anymount.Readdir.Defs.{trait_offset, parent_of, emit_page, emit_pages}
use anymount.Readdir.Defs.{emit_dotdot, emit_dot, emit, dot, dotdot}
use anymount.Readdir.Steps.{Sink-cases, sent, dot_entry, dotdot_entry}
use anymount.Readdir.Steps.{pages_end, pages_err, pages_go, pages_stop}

pub page_cases :
    (page : FsResult (List DirEntry))
    → (page ≡ ok [])
      ⊎ ((e : FsError) × (page ≡ err e))
      ⊎ ((e : DirEntry) × (es : List DirEntry) × (page ≡ ok (e ∷ es)))
page_cases (err e) = inr (inl (e, refl))
page_cases (ok []) = inl refl
page_cases (ok (e ∷ es)) = inr (inr (e, es, refl))

module _ (F : ReadOnlyFs) {T : Type 0} (sink : Entry → T → Step F.State (Sink × T)) (P : T → Type 0)
    (keeps : (e : Entry) (t : T) (s : F.State) → P t → P (sink e t s).0.1) where
  page_keeps :
      (page : List DirEntry) (o : ℕ) (t : T) (s : F.State)
      → P t
      → P (emit_page F sink page o t s).0.2
  unfolding emit_page
  page_keeps [] o t s p = p
  page_keeps (e ∷ page) o t s p =
      let out = sink (sent o e) t s in
      elim (Sink-cases out.0.0) [
        | inl a ↦ rw (◌>>=◌, a) (page_keeps page _ out.0.1 out.1 (keeps (sent o e) t s p))
        | inr a ↦ rw (◌>>=◌, a) (keeps (sent o e) t s p)
      ]

  pages_keep :
      (fuel : ℕ) (dir : Ino) (o : ℕ) (t : T) (s : F.State)
      → P t
      → P (emit_pages F sink fuel dir o t s).0.1
  unfolding emit_pages
  pages_keep zero dir o t s p = p
  pages_keep (suc fuel) dir o t s p =
      let s' = (F.readdir dir o s).1 in
      elim (page_cases (F.readdir dir o s).0) [
        | inl h ↦ rw (pages_end F sink fuel dir o t s h) p
        | inr (inl (e, h)) ↦ rw (pages_err F sink fuel dir o t s e h) p
        | inr (inr (e, es, h)) ↦
            (let out = emit_page F sink (e ∷ es) o t s' in
              let p' = page_keeps (e ∷ es) o t s' p in
              elim (Bool-cases out.0.0) [
                | inr go ↦
                    rw (pages_go F sink fuel dir o t s e es h go)
                      (pages_keep fuel dir out.0.1 out.0.2 out.1 p')
                | inl stop ↦ rw (pages_stop F sink fuel dir o t s e es h stop) p'
              ])
      ]

  dotdot_keeps :
      (fuel : ℕ) (dir : Ino) (c : ℕ) (t : T) (s : F.State)
      → P t
      → P (emit_dotdot F sink fuel dir c t s).0.1
  unfolding emit_dotdot
  dotdot_keeps fuel dir c t s p = elim (Bool-cases (c == dot)) [
    | inr other ↦ rw other (pages_keep fuel dir (trait_offset c) t s p)
    | inl same ↦
        (let up = parent_of F dir s in
          let out = sink (dotdot_entry up.0) t up.1 in
          let p' = keeps (dotdot_entry up.0) t up.1 p in
          elim (Sink-cases out.0.0) [
            | inl a ↦
                rw (same, ◌>>=◌, a) (pages_keep fuel dir (trait_offset dotdot) out.0.1 out.1 p')
            | inr a ↦ rw (same, ◌>>=◌, a) p'
          ])
  ]

  dot_keeps :
      (fuel : ℕ) (dir : Ino) (c : ℕ) (t : T) (s : F.State)
      → P t
      → P (emit_dot F sink fuel dir c t s).0.1
  unfolding emit_dot
  dot_keeps fuel dir c t s p = elim (Bool-cases (c == 0)) [
    | inr other ↦ rw other (dotdot_keeps fuel dir c t s p)
    | inl same ↦
        (let out = sink (dot_entry dir) t s in
          let p' = keeps (dot_entry dir) t s p in
          elim (Sink-cases out.0.0) [
            | inl a ↦ rw (same, ◌>>=◌, a) (dotdot_keeps fuel dir dot out.0.1 out.1 p')
            | inr a ↦ rw (same, ◌>>=◌, a) p'
          ])
  ]

  -- What every call of the sink keeps of its own state holds of it when `emit` is over, whatever the
  -- filesystem returns and however the walk ends.
  pub emit_keeps :
      (fuel : ℕ) (dir : Ino) (c : ℕ) (d : Dots) (t : T) (s : F.State)
      → P t
      → P (emit F sink fuel dir c d t s).0.1
  unfolding emit
  emit_keeps fuel dir c synthesize t s p = dot_keeps fuel dir c t s p
  emit_keeps fuel dir c omit t s p = pages_keep fuel dir (trait_offset c) t s p
