-- ===== src/Tests/Linux.antt =====
-- The Linux backend on a filesystem of one file.
use anymount.Prelude.{
  ℕ, zero, suc, ◌+◌, ◌<◌, ◌≤◌, ◌≡◌, ◌≢◌, ◌↔◌, ◌⊎◌, refl, arith, min, false, true, Bool, some, List,
  [], ◌∷◌, ◌++◌, Result, ok, err, length, drop, map,
}
use anymount.Types.{Ino, OsStr}
use anymount.Error.{FsError, IoError, non_unix}
use anymount.Fs.{Step, ReadOnlyFs}
use anymount.Fs.Contract.{slice}
use anymount.MemFs.{new_tree, State, hello_bytes, mem_fs, get}
use anymount.MemFs.Served.{mem_fs-Serves, IsOpen}
use anymount.Readdir.{parent_of}
use anymount.Readdir.Listing.{listing}
use anymount.Mount.{MountBuilder, new_builder, Disk, check}
use anymount.Mount.Checked.{Usable, Honors, check_iff}
use anymount.Fuse.{
  reply_size, reply_data, reply_error, max_read, read, xattr_names, listxattr, FileType, listed,
  readdir, caps, ro, MountOption, all, Config, config_of, spawned, mount,
}
use anymount.Fuse.Read.{read-Serves}
use anymount.Fuse.Xattr.{split_names, listxattr-Exchange}
use anymount.Fuse.Directory.{Record, record_of, Keeps, Filled, readdir-Filled}
use anymount.Fuse.Options.{Mountable, mount_iff}
use anymount.Tests.Fixtures.{owner, one_file, one_file_lists, entries}
use anymount.Tests.Memory.{hello_node}

abbrev erange : ℕ
erange = 34

abbrev hello_open : State
hello_open = record { open_files = (1, 2) ∷ []; next_handle = 2; poisoned = false }

hello_IsOpen : IsOpen 1 2 hello_open
hello_IsOpen = unfold get in (refl, refl)

read-Serves_example :
    (read (mem_fs owner new_tree) non_unix erange 1 6 4 hello_open).0
    ≡ reply_data (slice 6 (min 4 max_read) hello_bytes)
read-Serves_example =
    read-Serves (mem_fs owner new_tree) non_unix erange (IsOpen 1 2) 1 hello_bytes 6 4 hello_open
      (mem_fs-Serves owner new_tree 2 hello_bytes 1 hello_node) hello_IsOpen

-- A filesystem of two extended attributes.
abbrev tagged : ReadOnlyFs
tagged = record one_file { listxattr = λ i s. (ok ((b'a' ∷ []) ∷ (b'b' ∷ b'c' ∷ []) ∷ []), s) }

abbrev names : List OsStr
names = (b'a' ∷ []) ∷ (b'b' ∷ b'c' ∷ []) ∷ []

listxattr-Exchange_example :
    (((listxattr tagged non_unix erange 2 0 tt).0 ≡ reply_size (length (xattr_names names)))
      × ((size : ℕ)
          → size ≢ 0
          → length (xattr_names names) ≤ size
          → (listxattr tagged non_unix erange 2 size tt).0 ≡ reply_data (xattr_names names))
      × ((size : ℕ)
          → size < length (xattr_names names)
          → size ≢ 0
          → (listxattr tagged non_unix erange 2 size tt).0 ≡ reply_error erange))
    × (split_names [] (xattr_names names) ≡ names)
listxattr-Exchange_example =
    listxattr-Exchange tagged non_unix erange 2 names tt refl
      ((omega arith, tt), ((omega arith, (omega arith, tt)), tt))
      (unfold xattr_names in omega arith)

-- A buffer with room for a number of records.
abbrev Buffer : Type 0
Buffer = ℕ × List Record

unfoldable add : Buffer → Ino → ℕ → FileType → OsStr → Bool × Buffer
add (zero, held) i c k n = (true, (zero, held))
add (suc room, held) i c k n =
    (false, (room, held ++ (record { ino = i; cookie = c; kind = k; name = n } ∷ [])))

add_added :
    (b : Buffer) (i : Ino) (c : ℕ) (k : FileType) (n : OsStr)
    → (add b i c k n).0 ≡ false
    → (add b i c k n).1.1 ≡ b.1 ++ (record { ino = i; cookie = c; kind = k; name = n } ∷ [])
unfolding add
add_added (zero, held) i c k n h = absurd (true-false h)
  where
    true-false : true ≡ false → ⊥
    true-false h = cc
add_added (suc room, held) i c k n h = refl

add_refused :
    (b : Buffer) (i : Ino) (c : ℕ) (k : FileType) (n : OsStr)
    → (add b i c k n).0 ≡ true
    → (add b i c k n).1.1 ≡ b.1
unfolding add
add_refused (zero, held) i c k n h = refl
add_refused (suc room, held) i c k n h = absurd (false-true h)
  where
    false-true : false ≡ true → ⊥
    false-true h = cc

abbrev add_keeps : Keeps add
add_keeps = record { contents = λ b. b.1; added = add_added; refused = add_refused }

own_parent : (s : Unit {0}) → (parent_of one_file 1 s).0 ≡ 1
unfolding parent_of
own_parent s = refl

-- Two records fit: the kernel goes on from the first of them.
readdir-Filled_example :
    (b' : Buffer) × ((readdir one_file non_unix add 2 1 1 (2, []) tt).0 ≡ some (listed b'))
    × Filled add add_keeps (map record_of (drop 1 (listing 1 1 entries))) (2, []) b'
readdir-Filled_example =
    readdir-Filled one_file non_unix add add_keeps 1 1 entries one_file_lists own_parent 2 1 (2, [])
      tt (omega arith) (omega arith)

abbrev directory_here : Disk
directory_here = record { metadata = ok true; read_dir = ok true }

abbrev private_mount : MountBuilder
private_mount = record (new_builder []) { auto_unmount = true }

-- The platform's mount always succeeds, and counts how often it is called.
abbrev spawn : OsStr → Config → Step ℕ (Result ℕ IoError)
spawn path config calls = (ok 7, calls + 1)

mount_iff_example :
    ((Mountable directory_here private_mount)
      × (mount spawn directory_here private_mount 0 ≡ (
          let (session, w') = spawn private_mount.mountpoint (config_of private_mount) 0 in
          (spawned spawn session, w')))
      × ((rest : List MountOption) × ((config_of private_mount).mount_options ≡ ro ∷ rest))
      × ((config_of private_mount).acl ≡ all ↔ private_mount.allow_other ≡ true))
    ⊎ ((Mountable directory_here private_mount → ⊥)
        × ((e : FsError) × (mount spawn directory_here private_mount 0 ≡ (err e, 0))))
mount_iff_example = mount_iff spawn directory_here private_mount 0

check_iff_example :
    (check directory_here private_mount caps ≡ ok tt)
    ↔ (Usable directory_here caps × Honors private_mount caps)
check_iff_example = check_iff directory_here private_mount caps
