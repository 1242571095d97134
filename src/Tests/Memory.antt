-- ===== src/Tests/Memory.antt =====
-- The in-memory filesystem of the example, its files and its root directory.
use anymount.Prelude.{ℕ, ◌≡◌, refl, arith, some, List, [], ◌∷◌, ok, length}
use anymount.Types.{Ino, FileKind, DirEntry}
use anymount.Fs.Contract.{slice}
use anymount.MemFs.{
  dir, file, node, get, insert, remove, insert_name, eq_name, lt_name, new_tree, new_state,
  open_file, read_at, collect, hello_bytes, hello_name, numbers_name, subdir_name,
}
use anymount.MemFs.Handles.{
  Call, open_call, read_call, release_call, run_calls, Fresh, opened_reads,
}
use anymount.Tests.Fixtures.{owner}

abbrev pub hello_children : List (List ℕ × Ino)
hello_children = (hello_name, 2) ∷ (numbers_name, 3) ∷ (subdir_name, 4) ∷ []

abbrev pub root_entries : List DirEntry
root_entries =
    record { ino = 2; name = hello_name; kind = FileKind.file }
    ∷ record { ino = 3; name = numbers_name; kind = FileKind.file }
    ∷ record { ino = 4; name = subdir_name; kind = FileKind.directory }
    ∷ []

pub hello_node : node owner new_tree 2 ≡ ok (file hello_bytes)
unfolding node get insert remove new_tree
hello_node = refl

pub root_node : node owner new_tree 1 ≡ ok (dir hello_children)
unfolding node get insert remove new_tree insert_name eq_name lt_name
root_node = refl

pub root_collect : collect owner new_tree hello_children ≡ ok root_entries
unfolding collect node get insert remove new_tree
root_collect = refl

pub root_parent : get 1 new_tree.parents ≡ some 1
unfolding get insert remove new_tree
root_parent = refl

new_state-Fresh : Fresh new_state
unfolding new_state
new_state-Fresh = record { clean = refl; below = tt }

-- Another file is opened and closed meanwhile.
abbrev meanwhile : List Call
meanwhile = open_call 3 ∷ read_call 2 0 (0 ∷ 0 ∷ []) ∷ release_call 2 ∷ []

opened_reads_example :
    let (fh, s') = open_file owner new_tree 2 new_state in
    let later = run_calls owner new_tree meanwhile s' in
    (fh ≡ ok new_state.next_handle)
    × (read_at owner new_tree new_state.next_handle 6 (0 ∷ 0 ∷ 0 ∷ []) later
        ≡ ((ok (length (slice 6 3 hello_bytes)), slice 6 3 hello_bytes), later))
opened_reads_example =
    opened_reads owner new_tree 2 hello_bytes new_state meanwhile 6 (0 ∷ 0 ∷ 0 ∷ []) hello_node
      new_state-Fresh (unfold new_state in omega arith)
      (unfold new_state in (tt, (tt, (omega arith, tt))))
