-- ===== src/Fs.antt =====
-- src/fs.rs: the trait that an implementor writes.
-- The implementor's own state, which `&self` may change behind a lock, is `State`, and each method
-- is a step on it. `read_at` fills a `&mut [u8]`: it gives the bytes that it wrote from the front
-- of the buffer, and `fill` lays them over the old ones, since no callee can change the length of
-- a slice.
pub mod Logged
pub mod Contract
use anymount.Prelude.{◌≡◌, refl, arith, length, ℕ, List, [], ◌∷◌, Result, ok, err}
use anymount.Types.{Ino, FileHandle, OsStr, FileAttr, DirEntry, StatFs, statfs_default}
use anymount.Error.{FsError, no_xattr}

-- A computation on the state `S`.
abbrev pub Step : Type 0 → Type 0 → Type 0
Step S A = S → A × S

abbrev pub pure : {S A : Type 0} → A → Step S A
pure a s = (a, s)

infixl 5 ◌>>=◌ ◌>>◌
abbrev pub ◌>>=◌ : {S A B : Type 0} → Step S A → (A → Step S B) → Step S B
◌>>=◌ m f s = let (a, s') = m s in f a s'

abbrev pub ◌>>◌ : {S A B : Type 0} → Step S A → Step S B → Step S B
m >> k = m >>= λ _. k

abbrev pub FsResult : Type 0 → Type 0
FsResult A = Result A FsError

pub record ReadOnlyFs : Type 1 where
  pub State : Type 0
  pub lookup : Ino → OsStr → Step State (FsResult FileAttr)
  pub getattr : Ino → Step State (FsResult FileAttr)
  pub readdir : Ino → ℕ → Step State (FsResult (List DirEntry))
  pub open_file : Ino → Step State (FsResult FileHandle)
  pub read_at : FileHandle → ℕ → List ℕ → Step State (FsResult ℕ × List ℕ)
  pub release : FileHandle → Step State (FsResult (Unit {0}))
  pub forget : Ino → ℕ → Step State (Unit {0})
  pub listxattr : Ino → Step State (FsResult (List OsStr))
  pub getxattr : Ino → OsStr → Step State (FsResult (List ℕ))
  pub statfs : Step State (FsResult StatFs)

-- The bodies that the trait gives `forget`, `listxattr`, `getxattr` and `statfs`.
unfoldable pub forget_default : {S : Type 0} → Ino → ℕ → Step S (Unit {0})
forget_default ino nlookup = pure tt

unfoldable pub listxattr_default : {S : Type 0} → Ino → Step S (FsResult (List OsStr))
listxattr_default ino = pure (ok [])

unfoldable pub getxattr_default : {S : Type 0} → Ino → OsStr → Step S (FsResult (List ℕ))
getxattr_default ino name = pure (err no_xattr)

unfoldable pub statfs_default_body : {S : Type 0} → Step S (FsResult StatFs)
unfolding statfs_default
statfs_default_body = pure (ok statfs_default)

abbrev pub fill : List ℕ → List ℕ → List ℕ
fill written [] = []
fill [] (b ∷ bs) = b ∷ bs
fill (w ∷ ws) (b ∷ bs) = w ∷ fill ws bs

pub length-fill : (written buf : List ℕ) → length (fill written buf) ≡ length buf
length-fill written [] = refl
length-fill [] (b ∷ bs) = refl
length-fill (w ∷ ws) (b ∷ bs) = omega (arith, length-fill ws bs)

-- A call of `read_at` on `buf`: the result, and `buf` afterwards.
unfoldable pub read_into :
    (F : ReadOnlyFs) → FileHandle → ℕ → List ℕ → Step F.State (FsResult ℕ × List ℕ)
read_into F fh offset buf = do (n, written) ← F.read_at fh offset buf; pure (n, fill written buf)
