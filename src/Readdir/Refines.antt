-- ===== src/Readdir/Refines.antt =====
-- `emit` of src/backend/readdir.rs against the listing of Listing.
use anymount.Prelude.{ℕ, zero, suc, ◌+◌, ◌^◌, ◌<◌, ◌≡◌, refl, sym, ap, ◌∙◌, true, false, not}
use anymount.Prelude.{some, List, [], ◌∷◌, ◌++◌, length, drop, length-append, arith}
use anymount.Prelude.{length-drop, drop-append_length, drop-drop, ok, Bool-cases, inl, inr}
use anymount.Types.{Ino, DirEntry}
use anymount.Fs.{ReadOnlyFs, Step}
use anymount.Readdir.Defs.{Sink, Entry, synthesize, omit, trait_offset, Emitted}
use anymount.Readdir.Defs.{parent_of, emit_page, emit_pages}
use anymount.Readdir.Defs.{emit_dotdot, emit}
use anymount.Readdir.Listing.{numbered, listing, offer, offer-append, IsPage, Lists, Acts}
use anymount.Readdir.Listing.{numbered-append, drop-numbered}
use anymount.Readdir.Steps.{entry_at, sent, sent-eq, dot_entry, dotdot_entry}
use anymount.Readdir.Steps.{told_all, Sink-cases, offer_accepted, offer_full, page_accepted}
use anymount.Readdir.Steps.{page_full, pages_end, pages_stop, pages_go, dots_skipped}
use anymount.Readdir.Steps.{dotdot_accepted, dotdot_full, dot_accepted, dots_from_one}
use anymount.Readdir.Steps.{dot_full}

module _ (F : ReadOnlyFs) {T : Type 0} (sink : Entry → T → Step F.State (Sink × T))
    (g : Entry → T → Sink × T) (acts : Acts sink g) where
  emit_page-offer :
      (page : List DirEntry) (o : ℕ) (t : T) (s : F.State)
      → o + length page + 3 < 2 ^ 64
      → let out = (emit_page F sink page o t s).0 in
        let told = offer g (numbered o page) t in
        (out.0 ≡ not told.0) × (out.2 ≡ told.1) × (told.0 ≡ true → out.1 ≡ o + length page)
  unfolding numbered
  emit_page-offer [] o t s h = unfold emit_page offer in (refl, refl, λ e. omega arith)
  emit_page-offer (e ∷ page) o t s h =
      let same : (sink (sent o e) t s).0 ≡ g (entry_at o e) t =
        acts (sent o e) t s ∙ ap (λ (x : Entry). g x t) (sent-eq o e (omega arith)) in
      let s' : F.State = (sink (sent o e) t s).1 in
      elim (Sink-cases (g (entry_at o e) t).0) [
        | inl a ↦
            rw
              (
                page_accepted F sink e page o t s (omega arith) (rw same a),
                offer_accepted g (entry_at o e) (numbered (o + 1) page) t a,
                same,
              )
              (let ih = emit_page-offer page (o + 1) (g (entry_at o e) t).1 s' (omega arith) in
                (ih.0, ih.1, λ x. ih.2 x ∙ omega arith))
        | inr f ↦
            rw
              (
                page_full F sink e page o t s (rw same f),
                offer_full g (entry_at o e) (numbered (o + 1) page) t f,
                same,
              )
              (refl, refl, λ x. cc)
      ]

  -- One page taken whole, or cut by the sink.
  page_offer :
      (page more : List DirEntry) (o : ℕ) (t : T)
      → offer g (numbered o (page ++ more)) t ≡ elim ((offer g (numbered o page) t).0) [
        | true ↦ offer g (numbered (o + length page) more) (offer g (numbered o page) t).1
        | false ↦ offer g (numbered o page) t
      ]
  page_offer page more o t = rw (numbered-append o page more) (offer-append g (numbered o page) _ t)

  module _ (dir : Ino) (entries : List DirEntry) (L : Lists F dir entries) where
    -- A run of the pages from offset `o` offers the listing from there.
    abbrev Offers : ℕ → ℕ → T → F.State → Type 0
    Offers fuel o t s =
        length (drop o entries) < fuel
        → length entries + 3 < 2 ^ 64
        → (emit_pages F sink fuel dir o t s).0
          ≡ (let (all, t') = offer g (numbered o (drop o entries)) t in (some (ok all), t'))

    -- What a round shows if the rounds that follow it show their part.
    round :
        (fuel o : ℕ) (t : T) (s : F.State) (page : List DirEntry)
        → ((o' : ℕ) (t' : T) (s' : F.State) → Offers fuel o' t' s')
        → (F.readdir dir o s).0 ≡ ok page
        → IsPage page (drop o entries)
        → Offers (suc fuel) o t s
    round fuel o t s [] ih h p hf hb =
        rw (p.ends refl, pages_end F sink fuel dir o t s h) (unfold offer numbered in refl)
    round fuel o t s (e ∷ es) ih h p hf hb =
        let s' : F.State = (F.readdir dir o s).1 in
        let size : length (drop o entries) ≡ length (e ∷ es) + length p.more =
          ap (λ (l : List DirEntry). length l) (sym p.front) ∙ length-append (e ∷ es) p.more in
        let told = offer g (numbered o (e ∷ es)) t in
        let out = emit_page F sink (e ∷ es) o t s' in
        let lem = emit_page-offer (e ∷ es) o t s' (omega (arith, size, length-drop o entries)) in
        rw (← p.front, page_offer (e ∷ es) p.more o t)
          (elim (Bool-cases told.0) [
            | inl all ↦
                let n : out.0.1 ≡ o + length (e ∷ es) = lem.2 all in
                let left : drop (o + length (e ∷ es)) entries ≡ p.more =
                  sym (drop-drop o (length (e ∷ es)) entries)
                  ∙ ap (λ (l : List DirEntry). drop (length (e ∷ es)) l) (sym p.front)
                  ∙ drop-append_length (e ∷ es) p.more in
                rw (all, pages_go F sink fuel dir o t s e es h (lem.0 ∙ ap not all), n, lem.1)
                  (rw left at
                    (ih (o + length (e ∷ es)) told.1 out.1 (rw left (omega (arith, size))) hb))
            | inr cut ↦
                rw (cut, pages_stop F sink fuel dir o t s e es h (lem.0 ∙ ap not cut), lem.1)
                  (rw cut)
          ])

    emit_pages-offer : (fuel o : ℕ) (t : T) (s : F.State) → Offers fuel o t s
    emit_pages-offer zero o t s hf hb = absurd (omega arith)
    emit_pages-offer (suc fuel) o t s hf hb =
        round fuel o t s (L.page_at o s) (emit_pages-offer fuel) (L.answers o s) (L.pages o s) hf hb

    from_pages :
        (fuel o : ℕ) (t : T) (s : F.State)
        → length entries < fuel
        → length entries + 3 < 2 ^ 64
        → (emit_pages F sink fuel dir o t s).0
          ≡ (let (all, t') = offer g (numbered o (drop o entries)) t in (some (ok all), t'))
    from_pages fuel o t s hf hb =
        emit_pages-offer fuel o t s (omega (arith, length-drop o entries)) hb

    -- Without the dots, from the start.
    pub emit_omit-offer :
        (fuel : ℕ) (t : T) (s : F.State)
        → length entries < fuel
        → length entries + 3 < 2 ^ 64
        → (emit F sink fuel dir 0 omit t s).0
          ≡ (let (all, t') = offer g (numbered 0 entries) t in (some (ok all), t'))
    unfolding emit trait_offset
    emit_omit-offer fuel t s hf hb = from_pages fuel 0 t s hf hb

    module _ (parent : Ino) (up_is : (s : F.State) → (parent_of F dir s).0 ≡ parent) where
      drop_two :
          (r : ℕ) → drop (suc (suc r)) (listing dir parent entries) ≡ numbered r (drop r entries)
      unfolding listing
      drop_two r =
          drop-numbered r 0 entries ∙ ap (λ (k : ℕ). numbered k (drop r entries)) (omega arith)

      dotdot_offer :
          (fuel : ℕ) (t : T) (s : F.State)
          → length entries < fuel
          → length entries + 3 < 2 ^ 64
          → (emit_dotdot F sink fuel dir 1 t s).0 ≡ (
              let (all, t') = offer g (drop 1 (listing dir parent entries)) t in
              (some (ok all), t'))
      unfolding listing
      dotdot_offer fuel t s hf hb =
          let up = parent_of F dir s in
          let same : (sink (dotdot_entry up.0) t up.1).0 ≡ g (dotdot_entry parent) t =
            acts (dotdot_entry up.0) t up.1 ∙ ap (λ (i : Ino). g (dotdot_entry i) t) (up_is s) in
          let behind = numbered 0 entries in
          elim (Sink-cases (g (dotdot_entry parent) t).0) [
            | inl a ↦
                rw (dotdot_accepted F sink fuel dir t s (rw same a), same)
                  (from_pages fuel 0 _ _ hf hb
                    ∙ ap told_all (sym (offer_accepted g (dotdot_entry parent) behind t a)))
            | inr f ↦
                rw (dotdot_full F sink fuel dir t s (rw same f), same)
                  (ap told_all (sym (offer_full g (dotdot_entry parent) behind t f)))
          ]

      -- `emit` with the dots, given fuel for a round to each entry and one more, offers the sink
      -- exactly the listing behind `resume_after`, in order and until the sink is full; it returns
      -- without an error, and true exactly if the sink took all of it.
      pub emit-offer :
          (fuel r : ℕ) (t : T) (s : F.State)
          → length entries < fuel
          → length entries + 3 < 2 ^ 64
          → (emit F sink fuel dir r synthesize t s).0 ≡ (
              let (all, t') = offer g (drop r (listing dir parent entries)) t in
              (some (ok all), t'))
      unfolding listing
      emit-offer fuel zero t s hf hb =
          let same : (sink (dot_entry dir) t s).0 ≡ g (dot_entry dir) t =
            acts (dot_entry dir) t s in
          let behind = drop 1 (listing dir parent entries) in
          elim (Sink-cases (g (dot_entry dir) t).0) [
            | inl a ↦
                rw (dot_accepted F sink fuel dir t s (rw same a), same)
                  (dotdot_offer fuel _ _ hf hb
                    ∙ ap told_all (sym (offer_accepted g (dot_entry dir) behind t a)))
            | inr f ↦
                rw (dot_full F sink fuel dir t s (rw same f), same)
                  (ap told_all (sym (offer_full g (dot_entry dir) behind t f)))
          ]
      emit-offer fuel (suc zero) t s hf hb =
          ap (λ (x : Emitted T × F.State). x.0) (dots_from_one F sink fuel dir t s)
          ∙ dotdot_offer fuel t s hf hb
      emit-offer fuel (suc (suc r)) t s hf hb =
          rw (dots_skipped F sink fuel dir r t s, drop_two r) (from_pages fuel r t s hf hb)
