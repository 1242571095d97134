-- ===== src/NfsProto/Entries.antt =====
-- The entries in a reply to READDIR3 of src/backend/nfs/nfs_proto.rs, as a client reads them.
use anymount.Prelude.{
  ℕ, zero, suc, ◌-◌, ◌^◌, ◌<◌, ◌≤◌, ◌≡◌, ap, ◌∙◌, true, false, Option, some, List, [], ◌∷◌, ◌++◌,
  length, arith, to_be_bytes, length-to_be_bytes, length-append, append_assoc, All,
}
use anymount.Types.{Ino, OsStr}
use anymount.Xdr.{
  Read, Reader, fail, pure, ◌>>=◌, read_u64, read_bool, read_opaque_var, write_bool, write_u32,
  write_u64, write_string,
}
use anymount.Xdr.Writes.{counted, write_opaque_var-counted}
use anymount.Xdr.RoundTrip.{at, Fits, Fits-next, read_bool-at, read_u64-at, read_opaque_var-at}
use anymount.Readdir.{Entry}
use anymount.NfsProto.Dirs.{dirent_base}

-- `entry3` of RFC 1813.
pub record Dirent : Type 0 where
  pub fileid : Ino
  pub name : OsStr
  pub cookie : ℕ

unfoldable pub read_dirent : Read Dirent
read_dirent = do
  fileid ← read_u64
  name ← read_opaque_var (2 ^ 32 - 1)
  cookie ← read_u64
  pure (record { fileid = fileid; name = name; cookie = cookie })

-- The list, of fewer entries than the fuel.
unfoldable pub read_dirents : ℕ → Read (List Dirent)
read_dirents zero = fail
read_dirents (suc k) = do
  value_follows ← read_bool
  (elim value_follows [
    | false ↦ pure []
    | true ↦ do e ← read_dirent; rest ← read_dirents k; pure (e ∷ rest)
  ])

abbrev pub dirent_of : Entry → Dirent
dirent_of e = record { fileid = e.ino; name = e.name; cookie = e.cookie }

unfoldable pub dirents_of : List Entry → List Dirent
dirents_of [] = []
dirents_of (e ∷ es) = dirent_of e ∷ dirents_of es

abbrev pub entry_bytes : Entry → List ℕ
entry_bytes e = dirent_base e.ino e.name e.cookie

unfoldable pub entries_bytes : List Entry → List ℕ
entries_bytes [] = []
entries_bytes (e ∷ es) = entry_bytes e ++ entries_bytes es

-- The fields are within what their words can say.
pub record Sized (e : Entry) : Type 0 where
  pub ino : e.ino < 2 ^ 64
  pub name : length e.name < 2 ^ 32
  pub cookie : e.cookie < 2 ^ 64

entry_parts :
    (e : Entry)
    → entry_bytes e
      ≡ to_be_bytes 4 1 ++ (to_be_bytes 8 e.ino ++ (counted e.name ++ to_be_bytes 8 e.cookie))
unfolding write_bool write_u32 write_u64 write_string
entry_parts e = rw write_opaque_var-counted (simp append_assoc)

read_dirent-at :
    (e : Entry) (before after : List ℕ)
    → Sized e
    → let w₁ = to_be_bytes 8 e.ino in
      let w₂ = counted e.name in
      let w₃ = to_be_bytes 8 e.cookie in
      Fits (at before (w₁ ++ (w₂ ++ (w₃ ++ after))))
      → read_dirent (at before (w₁ ++ (w₂ ++ (w₃ ++ after))))
        ≡ (some (dirent_of e), at (((before ++ w₁) ++ w₂) ++ w₃) after)
unfolding read_dirent
read_dirent-at e before after h fits =
    let w₁ = to_be_bytes 8 e.ino in
    let w₂ = counted e.name in
    let w₃ = to_be_bytes 8 e.cookie in
    let f₁ = Fits-next before w₁ (w₂ ++ (w₃ ++ after)) fits in
    let f₂ = Fits-next (before ++ w₁) w₂ (w₃ ++ after) f₁ in
    rw (
      ◌>>=◌,
      read_u64-at before (w₂ ++ (w₃ ++ after)) e.ino h.ino fits,
      read_opaque_var-at (before ++ w₁) (w₃ ++ after) e.name (2 ^ 32 - 1) (omega (arith, h.name))
          (omega arith) f₁,
      read_u64-at ((before ++ w₁) ++ w₂) after e.cookie h.cookie f₂,
    )

-- One entry more, when the entries behind it are read.
read_cons :
    (e : Entry) (k : ℕ) (before behind : List ℕ) (rest : List Dirent) (last : Reader)
    → Sized e
    → let w₀ = to_be_bytes 4 1 in
      let w₁ = to_be_bytes 8 e.ino in
      let w₂ = counted e.name in
      let w₃ = to_be_bytes 8 e.cookie in
      Fits (at before (w₀ ++ (w₁ ++ (w₂ ++ (w₃ ++ behind)))))
      → read_dirents k (at ((((before ++ w₀) ++ w₁) ++ w₂) ++ w₃) behind) ≡ (some rest, last)
      → read_dirents (suc k) (at before (w₀ ++ (w₁ ++ (w₂ ++ (w₃ ++ behind)))))
        ≡ (some (dirent_of e ∷ rest), last)
unfolding read_dirents
read_cons e k before behind rest last h fits ih =
    let w₀ = to_be_bytes 4 1 in
    let w₁ = to_be_bytes 8 e.ino in
    let w₂ = counted e.name in
    let w₃ = to_be_bytes 8 e.cookie in
    let f₁ = Fits-next before w₀ (w₁ ++ (w₂ ++ (w₃ ++ behind))) fits in
    rw (
      ◌>>=◌,
      read_bool-at before (w₁ ++ (w₂ ++ (w₃ ++ behind))) true fits,
      read_dirent-at e (before ++ w₀) behind h f₁,
      ih,
    )

-- The entries, the flag behind the last, and what follows.
pub read_dirents-at :
    (es : List Entry) (k : ℕ) (before after : List ℕ)
    → All Sized es
    → length es < k
    → Fits (at before (entries_bytes es ++ (to_be_bytes 4 0 ++ after)))
    → read_dirents k (at before (entries_bytes es ++ (to_be_bytes 4 0 ++ after)))
      ≡ (some (dirents_of es), at (before ++ (entries_bytes es ++ to_be_bytes 4 0)) after)
unfolding dirents_of entries_bytes
read_dirents-at es zero before after h hk fits = absurd (omega arith)
read_dirents-at [] (suc k) before after h hk fits =
    unfold read_dirents in rw (◌>>=◌, read_bool-at before after false fits)
read_dirents-at (e ∷ es) (suc k) before after (h, hs) hk fits =
    let w₀ = to_be_bytes 4 1 in
    let w₁ = to_be_bytes 8 e.ino in
    let w₂ = counted e.name in
    let w₃ = to_be_bytes 8 e.cookie in
    let behind = entries_bytes es ++ (to_be_bytes 4 0 ++ after) in
    let now = (((before ++ w₀) ++ w₁) ++ w₂) ++ w₃ in
    let split : (entry_bytes e ++ entries_bytes es) ++ (to_be_bytes 4 0 ++ after)
        ≡ w₀ ++ (w₁ ++ (w₂ ++ (w₃ ++ behind))) =
      ap (λ (b : List ℕ). (b ++ entries_bytes es) ++ (to_be_bytes 4 0 ++ after)) (entry_parts e)
      ∙ simp append_assoc in
    let fits' = rw split at fits in
    let f₁ = Fits-next before w₀ (w₁ ++ (w₂ ++ (w₃ ++ behind))) fits' in
    let f₂ = Fits-next (before ++ w₀) w₁ (w₂ ++ (w₃ ++ behind)) f₁ in
    let f₃ = Fits-next ((before ++ w₀) ++ w₁) w₂ (w₃ ++ behind) f₂ in
    let f₄ = Fits-next (((before ++ w₀) ++ w₁) ++ w₂) w₃ behind f₃ in
    let join : now ++ (entries_bytes es ++ to_be_bytes 4 0)
        ≡ before ++ ((entry_bytes e ++ entries_bytes es) ++ to_be_bytes 4 0) =
      rw (entry_parts e) (simp append_assoc) in
    ap (λ (b : List ℕ). read_dirents (suc k) (at before b)) split
    ∙ read_cons e k before behind (dirents_of es)
        (at (now ++ (entries_bytes es ++ to_be_bytes 4 0)) after) h fits'
        (read_dirents-at es k now after hs (omega arith) f₄)
    ∙ ap
        (λ (b : List ℕ).
          (let x : Option (List Dirent) × Reader =
              (some (dirent_of e ∷ dirents_of es), at b after) in
            x))
        join

-- An entry has a byte at least.
pub entries_bytes-bound : (es : List Entry) → length es ≤ length (entries_bytes es)
unfolding entries_bytes
entries_bytes-bound [] = omega arith
entries_bytes-bound (e ∷ es) =
    let behind = to_be_bytes 8 e.ino ++ (counted e.name ++ to_be_bytes 8 e.cookie) in
    let split = ap (λ (b : List ℕ). length b) (entry_parts e) in
    omega (
      arith,
      split,
      entries_bytes-bound es,
      length-append (to_be_bytes 4 1) behind,
      length-to_be_bytes 4 1,
      length-append (entry_bytes e) (entries_bytes es),
    )
