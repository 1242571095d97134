-- ===== src/MemFs/Demo.antt =====
-- `MemFs::new` of examples/memfs.rs: the tree that the example serves.
use anymount.Prelude.{ℕ, zero, suc, ◌+◌, ◌/◌, ◌%◌, false, List, [], ◌∷◌, ◌++◌, ltb, if◌then◌else◌}
use anymount.Types.{OsStr, root_ino}
use anymount.MemFs.Defs.{dir, file, Tree, State, insert, insert_name}

-- `hello.txt`, `numbers.txt`, `subdir` and `nested.txt`.
abbrev pub hello_name : OsStr
hello_name = b'h' ∷ b'e' ∷ b'l' ∷ b'l' ∷ b'o' ∷ b'.' ∷ b't' ∷ b'x' ∷ b't' ∷ []

abbrev pub numbers_name : OsStr
numbers_name = b'n' ∷ b'u' ∷ b'm' ∷ b'b' ∷ b'e' ∷ b'r' ∷ b's' ∷ b'.' ∷ b't' ∷ b'x' ∷ b't' ∷ []

abbrev pub subdir_name : OsStr
subdir_name = b's' ∷ b'u' ∷ b'b' ∷ b'd' ∷ b'i' ∷ b'r' ∷ []

abbrev pub nested_name : OsStr
nested_name = b'n' ∷ b'e' ∷ b's' ∷ b't' ∷ b'e' ∷ b'd' ∷ b'.' ∷ b't' ∷ b'x' ∷ b't' ∷ []

-- `Hello from anymount!` and `I am nested.`, each with its newline.
abbrev pub hello_bytes : List ℕ
hello_bytes =
    b'H' ∷ b'e' ∷ b'l' ∷ b'l' ∷ b'o' ∷ b' ' ∷ b'f' ∷ b'r' ∷ b'o' ∷ b'm' ∷ b' ' ∷ b'a' ∷ b'n' ∷ b'y'
    ∷ b'm' ∷ b'o' ∷ b'u' ∷ b'n' ∷ b't' ∷ b'!' ∷ 10 ∷ []

abbrev pub nested_bytes : List ℕ
nested_bytes =
    b'I' ∷ b' ' ∷ b'a' ∷ b'm' ∷ b' ' ∷ b'n' ∷ b'e' ∷ b's' ∷ b't' ∷ b'e' ∷ b'd' ∷ b'.' ∷ 10 ∷ []

-- A number below 1000 in decimal.
unfoldable pub decimal : ℕ → List ℕ
decimal n =
    if ltb n 10
    then (48 + n) ∷ []
    else if ltb n 100
    then (48 + n / 10) ∷ (48 + n % 10) ∷ []
    else (48 + n / 100) ∷ (48 + (n / 10) % 10) ∷ (48 + n % 10) ∷ []

-- The lines from `first` on, `count` of them.
unfoldable pub number_lines : ℕ → ℕ → List ℕ
number_lines first zero = []
number_lines first (suc count) = decimal first ++ (10 ∷ number_lines (first + 1) count)

unfoldable pub new_tree : Tree
new_tree =
    let with_hello = insert 2 (file hello_bytes) [] in
    let with_numbers = insert 3 (file (number_lines 1 100)) with_hello in
    let with_nested = insert 5 (file nested_bytes) with_numbers in
    let with_subdir = insert 4 (dir (insert_name nested_name 5 [])) with_nested in
    let root =
      insert_name subdir_name 4 (insert_name numbers_name 3 (insert_name hello_name 2 [])) in
    record {
      nodes = insert root_ino (dir root) with_subdir;
      parents = insert 4 root_ino (insert root_ino root_ino []);
    }

unfoldable pub new_state : State
new_state = record { open_files = []; next_handle = 1; poisoned = false }
