-- ===== src/MemFs/Served.antt =====
-- examples/memfs.rs as an implementation of what src/fs.rs asks of one: its directories listed, its
-- files served.
use mathlib.Core.Path.{subst}
use anymount.Prelude.{ℕ, zero, suc, ◌+◌, ◌^◌, ◌<◌, ◌≡◌, refl, sym, ap, false, some}
use anymount.Prelude.{List, [], ◌∷◌, ok, err, length, take, drop, arith, append-nil, length-take}
use anymount.Types.{Ino, OsStr, FileHandle, FileKind, Owner, DirEntry, file_attr, dir_attr}
use anymount.Error.{FsError}
use anymount.Fs.{FsResult, fill}
use anymount.Fs.Contract.{slice, Serves, Stores}
use anymount.Readdir.{parent_of}
use anymount.Readdir.Listing.{Lists, listing}
use anymount.Readdir.Resume.{read_all, total, read_all-listing}
use anymount.MemFs.Defs.{
  Node, dir, file, Tree, State, get, eq_name, node, attr, kind_of, entry_and, collect, readdir,
  lookup, mem_fs, open_file, release,
}
use anymount.MemFs.Tables.{get-insert}
use anymount.MemFs.Handles.{read_live, read_kept}

-- While a handle is in the table.
abbrev pub IsOpen : FileHandle → Ino → State → Type 0
IsOpen fh ino s = (s.poisoned ≡ false) × (get fh s.open_files ≡ some ino)

fill-front :
    (written buf : List ℕ)
    → length written ≡ length (take (length written) buf)
    → take (length written) (fill written buf) ≡ written
fill-front [] buf h = refl
fill-front (w ∷ ws) [] h = absurd (omega arith)
fill-front (w ∷ ws) (b ∷ bs) h = ap (◌∷◌ w) (fill-front ws bs (omega arith))

err-ok : {A : Type 0} {e : FsError} {a : A} → err e ≡ ok a → ⊥
err-ok h = cc

-- One more entry comes from one more child.
entry_and-ok :
    (owner : Owner) (t : Tree) (name : OsStr) (child : Ino) (k : FsResult FileKind)
    (r : FsResult (List DirEntry)) (entries : List DirEntry)
    → entry_and owner t name child k r ≡ ok entries
    → (e : DirEntry) × (es : List DirEntry) × (r ≡ ok es) × (entries ≡ e ∷ es)
entry_and-ok owner t name child (err x) r entries h = absurd (err-ok h)
entry_and-ok owner t name child (ok k) (err x) entries h = absurd (err-ok h)
entry_and-ok owner t name child (ok k) (ok es) entries h =
    (record { ino = child; name = name; kind = k }, es, refl, cc)

module _ (owner : Owner) (t : Tree) where
  pub mem_fs-Serves :
      (ino : Ino) (bytes : List ℕ) (fh : FileHandle)
      → node owner t ino ≡ ok (file bytes)
      → Serves (mem_fs owner t) (IsOpen fh ino) fh bytes
  mem_fs-Serves ino bytes fh h = record {
    keeps = λ o buf s i. subst (IsOpen fh ino) (sym (read_kept owner t fh o buf s)) i;
    counts = λ o buf s i.
        ap (λ (x : (FsResult ℕ × List ℕ) × State). x.0.0)
          (read_live owner t ino bytes fh o buf s h i.0 i.1);
    fills = λ o buf s i. rw (read_live owner t ino bytes fh o buf s h i.0 i.1) (
        fill-front (slice o (length buf) bytes) buf (
          omega (
            arith,
            length-take (length buf) (drop o bytes),
            length-take (length (slice o (length buf) bytes)) buf,
          )));
  }

  -- A file of the tree, while the lock is good.
  pub mem_fs-Stores :
      (ino : Ino) (bytes : List ℕ)
      → node owner t ino ≡ ok (file bytes)
      → Stores (mem_fs owner t) (λ s. s.poisoned ≡ false) ino bytes
  unfolding open_file release attr
  mem_fs-Stores ino bytes h = record {
    opened = λ s clean. record {
      fh = s.next_handle;
      Open = IsOpen s.next_handle ino;
      opens = rw (h, clean);
      is_open = rw (h, clean) (refl, get-insert s.next_handle ino s.open_files);
      serves = mem_fs-Serves ino bytes s.next_handle h;
      closes = λ s' o. rw (o.0) refl;
    };
    sized = λ s clean. (file_attr owner ino (length bytes), rw h, unfold file_attr in refl, clean);
  }

  collect-drop :
      (children : List (OsStr × Ino)) (entries : List DirEntry) (o : ℕ)
      → collect owner t children ≡ ok entries
      → collect owner t (drop o children) ≡ ok (drop o entries)
  unfolding collect
  collect-drop children entries zero h = h
  collect-drop [] entries (suc o) h = let e : entries ≡ [] = cc in rw e
  collect-drop ((name, child) ∷ children) entries (suc o) h =
      let (e, es, rest, cut) =
        entry_and-ok owner t name child (kind_of owner t (node owner t child))
          (collect owner t children) entries h in
      rw cut (collect-drop children es o rest)

  pub mem_fs-Lists :
      (ino : Ino) (children : List (OsStr × Ino)) (entries : List DirEntry)
      → node owner t ino ≡ ok (dir children)
      → collect owner t children ≡ ok entries
      → Lists (mem_fs owner t) ino entries
  unfolding readdir
  mem_fs-Lists ino children entries h c = record {
    page_at = λ o s. drop o entries;
    answers = λ o s. rw h (collect-drop children entries o c);
    pages = λ o s. record { more = []; front = append-nil (drop o entries); ends = λ e. e };
  }

  pub mem_fs_parent :
      (ino up : Ino) (n : Node) (s : State)
      → get ino t.parents ≡ some up
      → node owner t up ≡ ok n
      → (parent_of (mem_fs owner t) ino s).0 ≡ up
  unfolding parent_of lookup attr eq_name
  mem_fs_parent ino up (dir children) s h k = rw (h, k) (unfold dir_attr in refl)
  mem_fs_parent ino up (file bytes) s h k = rw (h, k) (unfold file_attr in refl)

  -- A client that pages through a directory whose children and parent are all nodes of the tree is
  -- given `.`, `..` and the children in their order, each once, with the kind of its node: as many
  -- as the replies have room for together.
  pub mem_fs-listing :
      (ino up : Ino) (n : Node) (children : List (OsStr × Ino)) (entries : List DirEntry) (fuel : ℕ)
      (rooms : List ℕ) (s : State)
      → node owner t ino ≡ ok (dir children)
      → collect owner t children ≡ ok entries
      → get ino t.parents ≡ some up
      → node owner t up ≡ ok n
      → length entries < fuel
      → length entries + 3 < 2 ^ 64
      → read_all (mem_fs owner t) fuel ino rooms [] s ≡ take (total rooms) (listing ino up entries)
  mem_fs-listing ino up n children entries fuel rooms s h c p k hf hb =
      read_all-listing (mem_fs owner t) ino up entries (mem_fs-Lists ino children entries h c)
        (λ s'. mem_fs_parent ino up n s' p k) fuel rooms s hf hb
