-- ===== src/MemFs/Defs.antt =====
-- examples/memfs.rs: the tree, its tables, and the trait's methods. A hash map is a list of keys and
-- values, the newest first; a `BTreeMap` by name is a list that insertion keeps in the order of the
-- names' bytes. The lock around the open files is poisoned if a thread has panicked while it held it.
use anymount.Prelude.{ℕ, ◌+◌, ◌-◌, ◌%◌, ◌^◌, min, Bool, true, false, ◌&&◌, ◌||◌, Option, none, some}
use anymount.Prelude.{List, [], ◌∷◌, ok, err, length, take, drop, ltb, ◌==◌, if◌then◌else◌}
use anymount.Types.{
  Ino, FileHandle, OsStr, FileKind, FileAttr, Owner, file_attr, dir_attr, DirEntry,
}
use anymount.Error.{FsError, not_found, not_a_directory, is_a_directory, invalid_argument, other}
use anymount.Fs.{ReadOnlyFs, Step, FsResult}
use anymount.Fs.{forget_default, listxattr_default, getxattr_default, statfs_default_body}
use anymount.Readdir.{dot_name, dotdot_name}

-- `HashMap::get`, `insert` and `remove`.
unfoldable pub get : {V : Type 0} → ℕ → List (ℕ × V) → Option V
get k [] = none
get k ((i, v) ∷ l) = if i == k then some v else get k l

unfoldable pub remove : {V : Type 0} → ℕ → List (ℕ × V) → List (ℕ × V)
remove k [] = []
remove k ((i, v) ∷ l) = let rest = remove k l in if i == k then rest else (i, v) ∷ rest

unfoldable pub insert : {V : Type 0} → ℕ → V → List (ℕ × V) → List (ℕ × V)
insert k v l = (k, v) ∷ remove k l

unfoldable pub eq_name : OsStr → OsStr → Bool
eq_name [] [] = true
eq_name [] (b ∷ bs) = false
eq_name (a ∷ as') [] = false
eq_name (a ∷ as') (b ∷ bs) = (a == b) && eq_name as' bs

unfoldable pub lt_name : OsStr → OsStr → Bool
lt_name as' [] = false
lt_name [] (b ∷ bs) = true
lt_name (a ∷ as') (b ∷ bs) = ltb a b || ((a == b) && lt_name as' bs)

-- `BTreeMap::get` and `insert`.
unfoldable pub get_name : OsStr → List (OsStr × Ino) → Option Ino
get_name name [] = none
get_name name ((n, i) ∷ l) = if eq_name n name then some i else get_name name l

unfoldable pub insert_name : OsStr → Ino → List (OsStr × Ino) → List (OsStr × Ino)
insert_name name ino [] = (name, ino) ∷ []
insert_name name ino ((n, i) ∷ l) =
    let later = insert_name name ino l in
    if eq_name n name
    then (name, ino) ∷ l
    else if lt_name name n
    then (name, ino) ∷ (n, i) ∷ l
    else (n, i) ∷ later

pub data Node : Type 0 where
  dir : List (OsStr × Ino) → Node
  file : List ℕ → Node

-- The fields that no method changes.
pub record Tree : Type 0 where
  pub nodes : List (ℕ × Node)
  pub parents : List (ℕ × Ino)

pub record State : Type 0 where
  pub open_files : List (ℕ × Ino)
  pub next_handle : ℕ
  pub poisoned : Bool

abbrev pub poison_error : FsError
poison_error = other "open_files mutex poisoned"

module _ (owner : Owner) (t : Tree) where
  abbrev pub ok_or : {A : Type 0} → FsError → Option A → FsResult A
  ok_or e none = err e
  ok_or e (some a) = ok a

  unfoldable pub node : Ino → FsResult Node
  node ino = ok_or not_found (get ino t.nodes)

  abbrev pub attr_node : Ino → FsResult Node → FsResult FileAttr
  attr_node ino (err e) = err e
  attr_node ino (ok (dir children)) = ok (dir_attr owner ino)
  attr_node ino (ok (file bytes)) = ok (file_attr owner ino (length bytes))

  unfoldable pub attr : Ino → FsResult FileAttr
  attr ino = attr_node ino (node ino)

  abbrev pub attr_found : Option Ino → FsResult FileAttr
  attr_found none = err not_found
  attr_found (some ino) = attr ino

  abbrev pub lookup_in : OsStr → FsResult Node → FsResult FileAttr
  lookup_in name (err e) = err e
  lookup_in name (ok (file bytes)) = err not_a_directory
  lookup_in name (ok (dir children)) = attr_found (get_name name children)

  unfoldable pub lookup : Ino → OsStr → FsResult FileAttr
  lookup parent name =
      if eq_name name dot_name
      then attr parent
      else if eq_name name dotdot_name
      then attr_found (get parent t.parents)
      else lookup_in name (node parent)

  abbrev pub kind_of : FsResult Node → FsResult FileKind
  kind_of (err e) = err e
  kind_of (ok (dir children)) = ok FileKind.directory
  kind_of (ok (file bytes)) = ok FileKind.file

  abbrev pub entry_and :
      OsStr → Ino → FsResult FileKind → FsResult (List DirEntry) → FsResult (List DirEntry)
  entry_and name child (err e) rest = err e
  entry_and name child (ok k) (err e) = err e
  entry_and name child (ok k) (ok es) = ok (record { ino = child; name = name; kind = k } ∷ es)

  -- `map` and `collect`: the first error ends it.
  unfoldable pub collect : List (OsStr × Ino) → FsResult (List DirEntry)
  collect [] = ok []
  collect ((name, child) ∷ children) =
      entry_and name child (kind_of (node child)) (collect children)

  abbrev pub readdir_in : ℕ → FsResult Node → FsResult (List DirEntry)
  readdir_in offset (err e) = err e
  readdir_in offset (ok (file bytes)) = err not_a_directory
  readdir_in offset (ok (dir children)) = collect (drop offset children)

  unfoldable pub readdir : Ino → ℕ → FsResult (List DirEntry)
  readdir ino offset = readdir_in offset (node ino)

  -- `fetch_add` comes before the lock is taken.
  abbrev pub open_node : Ino → FsResult Node → Step State (FsResult FileHandle)
  open_node ino (err e) s = (err e, s)
  open_node ino (ok (dir children)) s = (err is_a_directory, s)
  open_node ino (ok (file bytes)) s =
      let counted = record s { next_handle = (s.next_handle + 1) % 2 ^ 64 } in
      if s.poisoned
      then (err poison_error, counted)
      else (ok s.next_handle, record counted { open_files = insert s.next_handle ino s.open_files })

  unfoldable pub open_file : Ino → Step State (FsResult FileHandle)
  open_file ino s = open_node ino (node ino) s

  -- The count, and the bytes copied to the front of the buffer.
  abbrev pub read_node : ℕ → ℕ → FsResult Node → FsResult ℕ × List ℕ
  read_node offset len (err e) = (err e, [])
  read_node offset len (ok (dir children)) = (err is_a_directory, [])
  read_node offset len (ok (file bytes)) =
      let start = min offset (length bytes) in
      let n = min len (length bytes - start) in (ok n, take n (drop start bytes))

  abbrev pub read_found : ℕ → ℕ → Option Ino → FsResult ℕ × List ℕ
  read_found offset len none = (err invalid_argument, [])
  read_found offset len (some ino) = read_node offset len (node ino)

  unfoldable pub read_at : FileHandle → ℕ → List ℕ → Step State (FsResult ℕ × List ℕ)
  read_at fh offset buf s =
      if s.poisoned
      then ((err poison_error, []), s)
      else (read_found offset (length buf) (get fh s.open_files), s)

  unfoldable pub release : FileHandle → Step State (FsResult (Unit {0}))
  release fh s =
      if s.poisoned
      then (err poison_error, s)
      else (ok tt, record s { open_files = remove fh s.open_files })

  abbrev pub mem_fs : ReadOnlyFs
  mem_fs = record {
    State = State;
    lookup = λ parent name s. (lookup parent name, s);
    getattr = λ ino s. (attr ino, s);
    readdir = λ ino offset s. (readdir ino offset, s);
    open_file = open_file;
    read_at = read_at;
    release = release;
    forget = forget_default;
    listxattr = listxattr_default;
    getxattr = getxattr_default;
    statfs = statfs_default_body;
  }
