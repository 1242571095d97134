-- ===== src/NfsProto/Fitting.antt =====
-- Which entries READDIR3 of src/backend/nfs/nfs_proto.rs packs into a reply.
use mathlib.Core.Path.{subst}
use anymount.Prelude.{
  ℕ, ◌+◌, ◌-◌, ◌<◌, ◌≤◌, ◌≡◌, refl, sym, ap, ◌∙◌, Bool, true, false, Bool-cases, inl, inr, List, [],
  ◌∷◌, ◌++◌, length, take, ltb, arith, length-append, append_assoc, append-nil, if◌then◌else◌,
}
use anymount.Fs.{ReadOnlyFs}
use anymount.Xdr.{Writer, extend_from}
use anymount.Readdir.{Sink, full, accepted, Entry}
use anymount.Readdir.Listing.{offer, Acts}
use anymount.NfsProto.Attrs.{Ctx}
use anymount.NfsProto.Dirs.{Packing, pack_if_fits, pack, encode_dirent}
use anymount.NfsProto.Entries.{entry_bytes, entries_bytes}

-- The front part of a list that has room in `b` bytes, and whether it is the whole.
unfoldable pub fitting : ℕ → List Entry → List Entry
fitting b [] = []
fitting b (e ∷ es) =
    let rest = fitting (b - length (entry_bytes e)) es in
    if ltb b (length (entry_bytes e)) then [] else e ∷ rest

unfoldable pub fits_all : ℕ → List Entry → Bool
fits_all b [] = true
fits_all b (e ∷ es) =
    let rest = fits_all (b - length (entry_bytes e)) es in
    if ltb b (length (entry_bytes e)) then false else rest

abbrev pub pack_entry : Entry → Packing → Sink × Packing
pack_entry e p = pack_if_fits (entry_bytes e) p

pub pack-Acts : (F : ReadOnlyFs) (ctx : Ctx) → Acts (pack F ctx false) pack_entry
unfolding pack encode_dirent
pack-Acts F ctx e p s = refl

pack_full :
    (w : Writer) (p : Packing) → ltb p.remaining (length w) ≡ true → pack_if_fits w p ≡ (full, p)
unfolding pack_if_fits
pack_full w p h = rw h refl

abbrev after_pack : Writer → Packing → Packing
after_pack w p = record {
  entries = p.entries ++ w;
  remaining = p.remaining - length w;
  packed = p.packed + 1;
}

pack_accepted :
    (w : Writer) (p : Packing)
    → ltb p.remaining (length w) ≡ false
    → pack_if_fits w p ≡ (accepted, after_pack w p)
unfolding pack_if_fits extend_from
pack_accepted w p h = rw h refl

module _ {T : Type 0} (g : Entry → T → Sink × T) (e : Entry) (es : List Entry) (t t' : T) where
  offer_stops : g e t ≡ (full, t') → offer g (e ∷ es) t ≡ (false, t')
  unfolding offer
  offer_stops h =
      let taken : (g e t).0 ≡ full = ap (λ (x : Sink × T). x.0) h in
      let left : (g e t).1 ≡ t' = ap (λ (x : Sink × T). x.1) h in
      rw (taken, offer) (ap (λ (x : T). (let y : Bool × T = (false, x) in y)) left)

  offer_goes_on : g e t ≡ (accepted, t') → offer g (e ∷ es) t ≡ offer g es t'
  unfolding offer
  offer_goes_on h =
      let taken : (g e t).0 ≡ accepted = ap (λ (x : Sink × T). x.0) h in
      let left : (g e t).1 ≡ t' = ap (λ (x : Sink × T). x.1) h in
      rw (taken, offer) (ap (λ (x : T). offer g es x) left)

fitting_cons :
    (b : ℕ) (e : Entry) (es : List Entry)
    → ltb b (length (entry_bytes e)) ≡ false
    → e ∷ fitting (b - length (entry_bytes e)) es ≡ fitting b (e ∷ es)
unfolding fitting
fitting_cons b e es h = rw h refl

-- What is packed of the entries, when the bytes are made up of what was packed before.
abbrev Packs : List Entry → Bool → Packing → Bool × Packing → Type 0
Packs packed all p out =
    (out.0 ≡ all)
    × (out.1.entries ≡ p.entries ++ entries_bytes packed)
    × (out.1.packed ≡ p.packed + length packed)

pub offer-fitting :
    (es : List Entry) (p : Packing)
    → Packs (fitting p.remaining es) (fits_all p.remaining es) p (offer pack_entry es p)
offer-fitting [] p =
    unfold offer fitting fits_all entries_bytes in (refl, sym (append-nil p.entries), omega arith)
offer-fitting (e ∷ es) p = elim (Bool-cases (ltb p.remaining (length (entry_bytes e)))) [
  | inl h ↦
      subst (Packs (fitting p.remaining (e ∷ es)) (fits_all p.remaining (e ∷ es)) p)
        (sym (offer_stops pack_entry e es p p (pack_full (entry_bytes e) p h)))
        (unfold fitting fits_all entries_bytes in
          rw h (refl, sym (append-nil p.entries), omega arith))
  | inr h ↦
      (let p' = after_pack (entry_bytes e) p in
        let (all, bytes, count) = offer-fitting es p' in
        let ps = fitting p'.remaining es in
        subst (Packs (fitting p.remaining (e ∷ es)) (fits_all p.remaining (e ∷ es)) p)
          (sym (offer_goes_on pack_entry e es p p' (pack_accepted (entry_bytes e) p h)))
          (subst
            (λ (x : List Entry). Packs x (fits_all p.remaining (e ∷ es)) p (offer pack_entry es p'))
            (fitting_cons p.remaining e es h)
            (
              all ∙ unfold fits_all in rw h refl,
              bytes
                  ∙ append_assoc p.entries (entry_bytes e) (entries_bytes ps)
                  ∙ unfold entries_bytes in refl,
              count ∙ omega arith,
            )))
]

pub fitting-take : (b : ℕ) (es : List Entry) → fitting b es ≡ take (length (fitting b es)) es
unfolding fitting
fitting-take b [] = refl
fitting-take b (e ∷ es) = elim (Bool-cases (ltb b (length (entry_bytes e)))) [
  | inl h ↦ rw h refl
  | inr h ↦ rw h (ap (λ (x : List Entry). e ∷ x) (fitting-take (b - length (entry_bytes e)) es))
]

pub fits_all-fitting : (b : ℕ) (es : List Entry) → fits_all b es ≡ true → fitting b es ≡ es
unfolding fitting fits_all
fits_all-fitting b [] h = refl
fits_all-fitting b (e ∷ es) h = ground (arith, h, fits_all-fitting (b - length (entry_bytes e)) es)

pub length-entries_bytes : (b : ℕ) (es : List Entry) → length (entries_bytes (fitting b es)) ≤ b
unfolding fitting entries_bytes
length-entries_bytes b [] = omega arith
length-entries_bytes b (e ∷ es) = elim (Bool-cases (ltb b (length (entry_bytes e)))) [
  | inl h ↦ rw h (omega arith)
  | inr h ↦
      (let left = b - length (entry_bytes e) in
        let ih = length-entries_bytes left es in
        rw h
          (ground (arith, h, ih, length-append (entry_bytes e) (entries_bytes (fitting left es)))))
]

true-false : true ≡ false → ⊥
true-false h = cc

-- A list that begins with an entry for which there is room is not cut to nothing.
pub fitting_progress :
    (b : ℕ) (es : List Entry)
    → ((e : Entry) (rest : List Entry) → es ≡ e ∷ rest → length (entry_bytes e) ≤ b)
    → fits_all b es ≡ false
    → 0 < length (fitting b es)
unfolding fitting fits_all
fitting_progress b [] h f = absurd (true-false f)
fitting_progress b (e ∷ es) h f = ground (arith, h e es refl)
