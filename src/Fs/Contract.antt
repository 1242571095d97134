-- ===== src/Fs/Contract.antt =====
-- src/fs.rs: what the documentation of `read_at` asks of an implementation, for an open file, and what
-- `open`, `release` and `getattr` do to a file that stays as it is.
use anymount.Prelude.{ℕ, ◌≡◌, List, ok, length, take, drop}
use anymount.Types.{Ino, FileHandle, FileAttr, OsStr}
use anymount.Fs.{ReadOnlyFs, fill}

abbrev pub slice : ℕ → ℕ → List ℕ → List ℕ
slice offset k content = take k (drop offset content)

-- While `Inv` holds, a read of the handle fills the buffer from `content`, and is short only at the
-- end of it.
pub record Serves (F : ReadOnlyFs) (Inv : F.State → Type 0) (fh : FileHandle) (content : List ℕ)
    : Type 0 where
  pub keeps : (o : ℕ) (buf : List ℕ) (s : F.State) → Inv s → Inv (F.read_at fh o buf s).1
  pub counts :
      (o : ℕ) (buf : List ℕ) (s : F.State)
      → Inv s
      → (F.read_at fh o buf s).0.0 ≡ ok (length (slice o (length buf) content))
  pub fills :
      (o : ℕ) (buf : List ℕ) (s : F.State)
      → Inv s
      → take (length (slice o (length buf) content)) (fill (F.read_at fh o buf s).0.1 buf)
        ≡ slice o (length buf) content

-- What an opened file keeps until it is released.
pub record Opened (F : ReadOnlyFs) (Inv : F.State → Type 0) (ino : Ino) (content : List ℕ)
    (s : F.State) : Type 1 where
  pub fh : FileHandle
  pub Open : F.State → Type 0
  pub opens : (F.open_file ino s).0 ≡ ok fh
  pub is_open : Open (F.open_file ino s).1
  pub serves : Serves F Open fh content
  pub closes : (s' : F.State) → Open s' → Inv (F.release fh s').1

-- While `Inv` holds, the file can be opened and has the content and its length.
pub record Stores (F : ReadOnlyFs) (Inv : F.State → Type 0) (ino : Ino) (content : List ℕ)
    : Type 1 where
  pub opened : (s : F.State) → Inv s → Opened F Inv ino content s
  pub sized :
      (s : F.State)
      → Inv s
      → (a : FileAttr) × ((F.getattr ino s).0 ≡ ok a)
        × (a.size ≡ length content)
        × Inv (F.getattr ino s).1

-- While `Inv` holds, `dir` has an entry with the name, which is the inode `ino`.
pub record Finds (F : ReadOnlyFs) (Inv : F.State → Type 0) (dir : Ino) (name : OsStr) (ino : Ino)
    : Type 0 where
  pub found :
      (s : F.State)
      → Inv s
      → (a : FileAttr) × ((F.lookup dir name s).0 ≡ ok a)
        × (a.ino ≡ ino)
        × Inv (F.lookup dir name s).1
  pub keeps : (s : F.State) → Inv s → Inv (F.getattr dir s).1
