-- ===== src/Fuse/Directory.antt =====
-- The callback `readdir` of src/backend/fuse.rs, on a buffer that keeps what it accepts.
use anymount.Prelude.{
  ℕ, suc, ◌+◌, ◌^◌, ◌<◌, ◌≡◌, refl, sym, ap, ◌∙◌, Bool, true, false, ◌⊎◌, inl, inr, some,
}
use anymount.Prelude.{
  List, [], ◌∷◌, ◌++◌, length, take, drop, map, append-nil, append_assoc, Bool-cases,
}
use anymount.Types.{Ino, OsStr, DirEntry}
use anymount.Error.{Libc}
use anymount.Fs.{ReadOnlyFs, pure, ◌>>=◌}
use anymount.Readdir.{Entry, parent_of}
use anymount.Readdir.Listing.{listing, offer, Lists}
use anymount.Readdir.Refines.{emit-offer}
use anymount.Fuse.Defs.{FileType, to_fuser_kind, listed, add_entry, readdir}

-- One entry as `add` is given it.
pub record Record : Type 0 where
  pub ino : Ino
  pub cookie : ℕ
  pub kind : FileType
  pub name : OsStr

unfoldable pub record_of : Entry → Record
record_of e = record { ino = e.ino; cookie = e.cookie; kind = to_fuser_kind e.kind; name = e.name }

-- What `fuser` documents of `ReplyDirectory::add`: true means no room, and nothing was added.
pub record Keeps {B : Type 0} (add : B → Ino → ℕ → FileType → OsStr → Bool × B) : Type 0 where
  pub contents : B → List Record
  pub added :
      (b : B) (i : Ino) (c : ℕ) (k : FileType) (n : OsStr)
      → (add b i c k n).0 ≡ false
      → contents (add b i c k n).1
        ≡ contents b ++ (record { ino = i; cookie = c; kind = k; name = n } ∷ [])
  pub refused :
      (b : B) (i : Ino) (c : ℕ) (k : FileType) (n : OsStr)
      → (add b i c k n).0 ≡ true
      → contents (add b i c k n).1 ≡ contents b

module _ {B : Type 0} (add : B → Ino → ℕ → FileType → OsStr → Bool × B) (K : Keeps add) where
  -- The buffer `b'` holds what `b` held and a front part of the records, and all of them unless it
  -- has no room for the next.
  abbrev pub Filled : List Record → B → B → Type 0
  Filled rs b b' =
      (k : ℕ) × (K.contents b' ≡ K.contents b ++ take k rs)
      × ((take k rs ≡ rs)
          ⊎ ((r : Record) × (rest : List Record) × (last : B) × (drop k rs ≡ r ∷ rest)
              × (K.contents last ≡ K.contents b')
              × ((add last r.ino r.cookie r.kind r.name).0 ≡ true)))

  offer-Filled :
      (es : List Entry) (b : B) → Filled (map record_of es) b (offer (add_entry add) es b).1
  unfolding offer add_entry record_of
  offer-Filled [] b = (0, sym (append-nil _), inl refl)
  offer-Filled (e ∷ es) b =
      let out = add b e.ino e.cookie (to_fuser_kind e.kind) e.name in
      elim (Bool-cases out.0) [
        | inl no_room ↦
            rw (no_room, offer)
              (
                0,
                K.refused b e.ino e.cookie (to_fuser_kind e.kind) e.name no_room
                    ∙ sym (append-nil (K.contents b)),
                inr (
                  record_of e,
                  map record_of es,
                  b,
                  refl,
                  sym (K.refused b e.ino e.cookie (to_fuser_kind e.kind) e.name no_room),
                  no_room,
                ),
              )
        | inr room ↦
            (let (k, holds, end) = offer-Filled es out.1 in
              let front =
                holds
                ∙ ap (λ (l : List Record). l ++ take k (map record_of es))
                    (K.added b e.ino e.cookie (to_fuser_kind e.kind) e.name room)
                ∙ append_assoc (K.contents b) (record_of e ∷ []) (take k (map record_of es)) in
              rw (room, offer)
                (
                  suc k,
                  front,
                  elim end [ inl all ↦ inl (ap (◌∷◌ (record_of e)) all) | inr x ↦ inr x ],
                ))
      ]

-- On a directory that lists its entries, given fuel for a round to each entry and one more, the
-- reply is the buffer without an error, and what was put into it is a front part of the records of
-- the listing (`.`, `..`, the entries) behind the offset that the kernel resumes from, in order; it
-- is all of them, or else the buffer has no room for the next.
pub readdir-Filled :
    (F : ReadOnlyFs) (c : Libc) {B : Type 0} (add : B → Ino → ℕ → FileType → OsStr → Bool × B)
    (K : Keeps add) (dir parent : Ino) (entries : List DirEntry)
    → Lists F dir entries
    → ((s : F.State) → (parent_of F dir s).0 ≡ parent)
    → (fuel offset : ℕ) (b : B) (s : F.State) → length entries < fuel
    → length entries + 3 < 2 ^ 64
    → (b' : B) × ((readdir F c add fuel dir offset b s).0 ≡ some (listed b'))
      × Filled add K (map record_of (drop offset (listing dir parent entries))) b b'
unfolding readdir
readdir-Filled F c add K dir parent entries L up_is fuel offset b s hf hb =
    let es : List Entry = drop offset (listing dir parent entries) in
    let same =
      emit-offer F (λ e t. pure (add_entry add e t)) (add_entry add) (λ e t s'. refl) dir entries L
        parent up_is fuel offset b s hf hb in
    (_, rw (◌>>=◌, same), offer-Filled add K es b)
