-- ===== src/Tests/Windows.antt =====
-- The Windows backend on the in-memory filesystem of the example, and on one of a single file.
use anymount.Prelude.{
  ℕ, ◌+◌, ◌≡◌, refl, arith, some, List, [], ◌∷◌, ◌++◌, ok, from_le_bytes, inr, ◌⊎◌,
}
use anymount.Types.{OsStr}
use anymount.Error.{Ntstatus}
use anymount.MemFs.{new_tree, new_state, hello_bytes, mem_fs, open_file, node, get, insert, remove}
use anymount.MemFs.Served.{mem_fs-Serves, IsOpen}
use anymount.Cfapi.{
  Operation, transfer_placeholders, CreateInfo, decode_ino, handle_fetch_data,
  handle_fetch_placeholders,
}
use anymount.Cfapi.Transfer.{Answers, Fails, Openable, Silent, handle_fetch_data-Answers}
use anymount.Cfapi.Content.{Streams, handle_fetch_data-Delivers}
use anymount.Cfapi.Listing.{Projects, handle_fetch_placeholders-Projects}
use anymount.Tests.Fixtures.{owner, one_file, one_file_lists, attr_at, entries}
use anymount.Tests.Memory.{hello_node}

abbrev nt : Ntstatus
nt = record {
  access_denied = 1;
  cloud_file_unsuccessful = 2;
  invalid_parameter = 3;
  not_supported = 4;
  object_name_not_found = 5;
}

abbrev identity : ℕ → List ℕ
identity ino = ino ∷ 0 ∷ 0 ∷ 0 ∷ 0 ∷ 0 ∷ 0 ∷ 0 ∷ []

decode_two : decode_ino (identity 2) ≡ some 2
unfolding decode_ino from_le_bytes
decode_two = refl

nt-Fails : Fails nt
nt-Fails = record {
  access_denied = omega arith;
  cloud_file_unsuccessful = omega arith;
  invalid_parameter = omega arith;
  not_supported = omega arith;
  object_name_not_found = omega arith;
}

-- Twelve bytes of a file that gives three bytes to each read.
handle_fetch_data-Answers_example :
    Silent one_file
      (decode_ino (identity 2))
      tt
      []
      (handle_fetch_data one_file nt 20 (identity 2) 0 12 (tt, []))
    ⊎ (Openable one_file (decode_ino (identity 2)) tt
        × Answers nt 0 (0 + 12) [] (handle_fetch_data one_file nt 20 (identity 2) 0 12 (tt, [])))
handle_fetch_data-Answers_example =
    handle_fetch_data-Answers one_file nt 20 (identity 2) 0 12 tt [] (omega arith) nt-Fails
      (omega arith)

opened_hello : (open_file owner new_tree 2 new_state).0 ≡ ok 1
unfolding open_file node get insert remove new_tree new_state
opened_hello = refl

hello_opened : IsOpen 1 2 (open_file owner new_tree 2 new_state).1
unfolding open_file node get insert remove new_tree new_state
hello_opened = (refl, refl)

handle_fetch_data-Delivers_example :
    (new : List Operation) × ((handle_fetch_data
        (mem_fs owner new_tree)
        nt
        20
        (identity 2)
        6
        4
        (new_state, [])).1.1
      ≡ [] ++ new)
    × Streams hello_bytes 6 (6 + 4) new
handle_fetch_data-Delivers_example =
    handle_fetch_data-Delivers (mem_fs owner new_tree) nt (IsOpen 1 2) 1 hello_bytes 20 (identity 2)
      2 6 4 new_state [] (mem_fs-Serves owner new_tree 2 hello_bytes 1 hello_node) decode_two
      opened_hello hello_opened (omega arith) (omega arith) (omega arith) (omega arith)

decode_one : decode_ino (identity 1) ≡ some 1
unfolding decode_ino from_le_bytes
decode_one = refl

-- ASCII names are as many units of UTF-16.
abbrev encode_wide : OsStr → List ℕ
encode_wide name = name

handle_fetch_placeholders-Projects_example :
    (infos : List CreateInfo) × ((handle_fetch_placeholders one_file encode_wide nt 2
        (identity 1)
        (tt, [])).0
      ≡ some tt)
    × ((handle_fetch_placeholders one_file encode_wide nt 2 (identity 1) (tt, [])).1.1
        ≡ [] ++ (transfer_placeholders infos 0 ∷ []))
    × Projects encode_wide (λ i. ok (attr_at i)) entries infos
handle_fetch_placeholders-Projects_example =
    handle_fetch_placeholders-Projects one_file encode_wide nt (λ i. ok (attr_at i)) 2 (identity 1)
      1 entries tt [] (λ i s. refl) (inr decode_one) one_file_lists (omega arith) (omega arith)
      (omega arith, tt)
