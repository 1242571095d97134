-- ===== src/Fuse/Xattr.antt =====
-- `listxattr` and `getxattr` of src/backend/fuse.rs, as their caller uses them.
use anymount.Prelude.{
  ℕ, ◌%◌, ◌^◌, ◌≤◌, ◌<◌, ◌≡◌, ◌≢◌, refl, ap, ◌∙◌, true, false, List, [], ◌∷◌, ◌++◌, ok,
}
use anymount.Prelude.{arith, length, ltb, ◌==◌, All, append_assoc, append-nil}
use anymount.Types.{Ino, OsStr}
use anymount.Error.{Libc}
use anymount.Fs.{ReadOnlyFs, ◌>>=◌}
use anymount.Fuse.Defs.{
  Reply, reply_size, reply_data, reply_error, xattr_reply, reply_xattr, xattr_names, listxattr,
  getxattr,
}

-- How a caller takes the list apart: a name ends at each zero byte.
unfoldable pub split_names : List ℕ → List ℕ → List OsStr
split_names name [] = []
split_names name (b ∷ bs) =
    let closed = split_names [] bs in
    let more = split_names (name ++ (b ∷ [])) bs in
    elim (b == 0) [ true ↦ name ∷ closed | false ↦ more ]

abbrev pub NoZero : OsStr → Type 0
NoZero name = All (λ (b : ℕ). b ≢ 0) name

split_names-name :
    (front name rest : List ℕ)
    → NoZero name
    → split_names front (name ++ (0 ∷ rest)) ≡ (front ++ name) ∷ split_names [] rest
unfolding split_names
split_names-name front [] rest h = rw (append-nil front)
split_names-name front (b ∷ name) rest (h, hs) =
    let other : (b == 0) ≡ false = ground arith in
    rw (other, split_names)
      (split_names-name (front ++ (b ∷ [])) name rest hs ∙ rw (append_assoc front (b ∷ []) name))

split_names-xattr_names :
    (names : List OsStr) → All NoZero names → split_names [] (xattr_names names) ≡ names
unfolding xattr_names
split_names-xattr_names [] h = unfold split_names in refl
split_names-xattr_names (name ∷ names) (h, hs) =
    split_names-name [] name (xattr_names names) h
    ∙ ap (◌∷◌ name) (split_names-xattr_names names hs)

-- A caller that asks for the length and then for the value.
abbrev Exchange : ℕ → List ℕ → (ℕ → Reply) → Type 0
Exchange erange bytes answer =
    (answer 0 ≡ reply_size (length bytes))
    × ((size : ℕ) → size ≢ 0 → length bytes ≤ size → answer size ≡ reply_data bytes)
    × ((size : ℕ) → size < length bytes → size ≢ 0 → answer size ≡ reply_error erange)

reply_xattr-Exchange :
    (erange : ℕ) (bytes : List ℕ)
    → length bytes < 2 ^ 32
    → Exchange erange bytes (λ size. reply_xattr erange bytes size)
unfolding reply_xattr xattr_reply
reply_xattr-Exchange erange bytes small =
    let whole : length bytes % 2 ^ 32 ≡ length bytes = omega arith in
    (
      rw whole,
      λ size some_room fits. fitting size some_room fits,
      λ size short some_room. lacking size short some_room,
    )
  where
    fitting :
        (size : ℕ)
        → size ≢ 0
        → length bytes ≤ size
        → reply_xattr erange bytes size ≡ reply_data bytes
    fitting size r f =
        let a : (size == 0) ≡ false = ground arith in
        let b : ltb size (length bytes) ≡ false = ground arith in rw (a, b)

    lacking :
        (size : ℕ)
        → size < length bytes
        → size ≢ 0
        → reply_xattr erange bytes size ≡ reply_error erange
    lacking size f r =
        let a : (size == 0) ≡ false = ground arith in
        let b : ltb size (length bytes) ≡ true = ground arith in rw (a, b)

-- The value of an attribute, below 4 GiB, is never cut: asked with size 0 the kernel is told its
-- length, asked with a size that it fits in the kernel is handed all of it, and asked with a smaller
-- size, which is not 0, it is told ERANGE.
pub getxattr-Exchange :
    (F : ReadOnlyFs) (c : Libc) (erange : ℕ) (ino : Ino) (name : OsStr) (value : List ℕ)
    (s : F.State)
    → (F.getxattr ino name s).0 ≡ ok value
    → length value < 2 ^ 32
    → Exchange erange value (λ size. (getxattr F c erange ino name size s).0)
unfolding getxattr
getxattr-Exchange F c erange ino name value s h small =
    let x = reply_xattr-Exchange erange value small in rw (◌>>=◌, h) x

-- The names of a file's attributes come back from the list that the kernel is handed: they are told
-- as a value below 4 GiB is, by its length, whole or with ERANGE, and a caller that cuts the
-- list at its zero bytes has the names again, in order, if none of them contains a zero byte.
pub listxattr-Exchange :
    (F : ReadOnlyFs) (c : Libc) (erange : ℕ) (ino : Ino) (names : List OsStr) (s : F.State)
    → (F.listxattr ino s).0 ≡ ok names
    → All NoZero names
    → length (xattr_names names) < 2 ^ 32
    → Exchange erange (xattr_names names) (λ size. (listxattr F c erange ino size s).0)
      × (split_names [] (xattr_names names) ≡ names)
unfolding listxattr
listxattr-Exchange F c erange ino names s h clean small =
    let x = reply_xattr-Exchange erange (xattr_names names) small in
    (rw (◌>>=◌, h) x, split_names-xattr_names names clean)
