-- ===== src/Cfapi/Listing.antt =====
-- The placeholders that src/backend/cfapi.rs hands over for a directory.

use anymount.Prelude.{
  ℕ, Bool, ◌+◌, ◌^◌, ◌<◌, ◌≡◌, refl, sym, ap, ◌∙◌, true, false, none, some, ◌⊎◌, inl, inr,
}
use anymount.Prelude.{
  List, [], ◌∷◌, ◌++◌, ok, err, length, arith, append-nil, append_assoc, All, Result-cases, ◌==◌,
  to_le_bytes, length-to_le_bytes, from_le_bytes-to_le_bytes,
}
use anymount.Types.{Ino, root_ino, OsStr, FileAttr, DirEntry}
use anymount.Error.{FsError, Ntstatus}
use anymount.Fs.{ReadOnlyFs, FsResult, pure, ◌>>=◌}
use anymount.Readdir.{emit, omit}
use anymount.Readdir.Listing.{Lists, numbered, offer}
use anymount.Readdir.Refines.{emit_omit-offer}
use anymount.Cfapi.Defs.{
  Operation, transfer_placeholders, CreateInfo, to_fs_metadata, to_create_info, decode_ino,
  descriptors, push_entry, prepare, list_placeholders, fetch_dir, handle_fetch_placeholders,
}

pub decode_ino-to_le_bytes : (ino : Ino) → ino < 2 ^ 64 → decode_ino (to_le_bytes 8 ino) ≡ some ino
unfolding decode_ino
decode_ino-to_le_bytes ino h =
    let width : (length (to_le_bytes 8 ino) == 8) ≡ true =
      ground (arith, length-to_le_bytes 8 ino) in
    rw width (ap (λ (i : Ino). some i) (from_le_bytes-to_le_bytes 8 ino h))

some-none : {A : Type 0} {a : A} → none ≡ some a → ⊥
some-none h = cc

cons-nil : {A : Type 0} {a : A} {l : List A} → a ∷ l ≡ [] → ⊥
cons-nil h = cc

-- Which directory an identity names: the empty one names the root.
abbrev pub Names : List ℕ → Ino → Type 0
Names identity dir = ((identity ≡ []) × (dir ≡ root_ino)) ⊎ (decode_ino identity ≡ some dir)

module _ (encode_wide : OsStr → List ℕ) (attrs : Ino → FsResult FileAttr) where
  -- One placeholder for each entry that has attributes, in order: its name in UTF-16 with its zero,
  -- its metadata, and an identity that decodes to its inode.
  abbrev pub Projects : List DirEntry → List CreateInfo → Type 0
  Projects [] infos = infos ≡ []
  Projects (e ∷ es) infos =
      ((a : FileAttr) × (i : CreateInfo) × (rest : List CreateInfo) × (attrs e.ino ≡ ok a)
        × (infos ≡ i ∷ rest)
        × (i.relative_file_name ≡ encode_wide e.name ++ (0 ∷ []))
        × (decode_ino i.file_identity ≡ some e.ino)
        × (i.fs_metadata ≡ to_fs_metadata a)
        × Projects es rest)
      ⊎ ((x : FsError) × (attrs e.ino ≡ err x) × Projects es infos)

-- The pairs that the listing pushes.
unfoldable pairs : List DirEntry → List (Ino × OsStr)
pairs [] = []
pairs (e ∷ es) = (e.ino, e.name) ∷ pairs es

offer-push_entry :
    (o : ℕ) (es : List DirEntry) (l : List (Ino × OsStr))
    → offer push_entry (numbered o es) l ≡ (true, l ++ pairs es)
unfolding offer numbered push_entry pairs
offer-push_entry o [] l = rw (append-nil l)
offer-push_entry o (e ∷ es) l =
    offer-push_entry (o + 1) es (l ++ ((e.ino, e.name) ∷ []))
    ∙ ap (λ (x : List (Ino × OsStr)). (true, x)) (append_assoc l ((e.ino, e.name) ∷ []) (pairs es))

module _ (F : ReadOnlyFs) (encode_wide : OsStr → List ℕ) (nt : Ntstatus)
    (attrs : Ino → FsResult FileAttr)
    (known : (i : Ino) (s : F.State) → (F.getattr i s).0 ≡ attrs i) where
  prepare-Projects :
      (es : List DirEntry) (s : F.State)
      → All (λ (e : DirEntry). e.ino < 2 ^ 64) es
      → Projects encode_wide attrs es (descriptors (prepare F encode_wide nt (pairs es) s).0)
  unfolding prepare pairs descriptors
  prepare-Projects [] s h = refl
  prepare-Projects (e ∷ es) s (h, hs) =
      let s' = (F.getattr e.ino s).1 in
      elim (Result-cases (attrs e.ino)) [
        | inl (a, found) ↦
            rw (◌>>=◌, known e.ino s ∙ found)
              (inl (
                a,
                _,
                _,
                found,
                refl,
                unfold to_create_info in refl,
                unfold to_create_info in decode_ino-to_le_bytes e.ino h,
                unfold to_create_info in refl,
                prepare-Projects es s' hs,
              ))
        | inr (x, lost) ↦
            rw (◌>>=◌, known e.ino s ∙ lost) (inr (x, lost, prepare-Projects es s' hs))
      ]

  listed_placeholders :
      (fuel : ℕ) (dir : Ino) (entries : List DirEntry) (s : F.State) (ops : List Operation)
      → Lists F dir entries
      → length entries < fuel
      → length entries + 3 < 2 ^ 64
      → All (λ (e : DirEntry). e.ino < 2 ^ 64) entries
      → (infos : List CreateInfo) × ((fetch_dir F encode_wide nt fuel (some dir) (s, ops)).0
          ≡ some tt)
        × ((fetch_dir F encode_wide nt fuel (some dir) (s, ops)).1.1
            ≡ ops ++ (transfer_placeholders infos 0 ∷ []))
        × Projects encode_wide attrs entries infos
  unfolding fetch_dir list_placeholders
  listed_placeholders fuel dir entries s ops L hf hb small =
      let out = emit F (λ e t. pure (push_entry e t)) fuel dir 0 omit [] s in
      let all : out.0 ≡ (some (ok true), pairs entries) =
        emit_omit-offer F (λ e t. pure (push_entry e t)) push_entry (λ e t s'. refl) dir entries L
          fuel [] s hf hb
        ∙ ap (λ (x : Bool × List (Ino × OsStr)). (some (ok x.0), x.1))
            (offer-push_entry 0 entries []) in
      (
        descriptors (prepare F encode_wide nt (pairs entries) out.1).0,
        rw (◌>>=◌, all),
        rw (◌>>=◌, all),
        prepare-Projects entries out.1 small,
      )

-- On a directory that lists its entries, given fuel for a round to each entry and one more, the
-- platform is handed one operation, with success: a placeholder for each entry that has attributes,
-- in the order of the entries and for no other, whose identity is the one that names the entry's
-- inode in later requests. An entry without attributes is left out and does not fail the listing.
pub handle_fetch_placeholders-Projects :
    (F : ReadOnlyFs) (encode_wide : OsStr → List ℕ) (nt : Ntstatus)
    (attrs : Ino → FsResult FileAttr) (fuel : ℕ) (identity : List ℕ) (dir : Ino)
    (entries : List DirEntry) (s : F.State) (ops : List Operation)
    → ((i : Ino) (s' : F.State) → (F.getattr i s').0 ≡ attrs i)
    → Names identity dir
    → Lists F dir entries
    → length entries < fuel
    → length entries + 3 < 2 ^ 64
    → All (λ (e : DirEntry). e.ino < 2 ^ 64) entries
    → (infos : List CreateInfo) × ((handle_fetch_placeholders F encode_wide nt fuel identity
          (s, ops)).0
        ≡ some tt)
      × ((handle_fetch_placeholders F encode_wide nt fuel identity (s, ops)).1.1
          ≡ ops ++ (transfer_placeholders infos 0 ∷ []))
      × Projects encode_wide attrs entries infos
unfolding handle_fetch_placeholders decode_ino
handle_fetch_placeholders-Projects F encode_wide nt attrs fuel [] dir entries s ops known
      (inl (e, r)) L hf hb small =
    rw (sym r)
      (listed_placeholders F encode_wide nt attrs known fuel dir entries s ops L hf hb small)
handle_fetch_placeholders-Projects F encode_wide nt attrs fuel [] dir entries s ops known (inr d) L
      hf hb small =
    absurd (some-none d)
handle_fetch_placeholders-Projects F encode_wide nt attrs fuel (b ∷ bs) dir entries s ops known
      (inl (e, r)) L hf hb small =
    absurd (cons-nil e)
handle_fetch_placeholders-Projects F encode_wide nt attrs fuel (b ∷ bs) dir entries s ops known
      (inr d) L hf hb small =
    let some_bytes : (length (b ∷ bs) == 0) ≡ false = ground arith in
    rw (some_bytes, d)
      (listed_placeholders F encode_wide nt attrs known fuel dir entries s ops L hf hb small)
