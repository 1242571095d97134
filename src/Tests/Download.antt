-- ===== src/Tests/Download.antt =====
-- A client that reads the greeting of the in-memory filesystem over NFS, five bytes at a time.
use anymount.Types.{file_attr}
use anymount.Fs.Contract.{Finds}
use anymount.MemFs.{
  lookup, attr, node, get, insert, remove, insert_name, eq_name, lt_name, get_name, hello_name,
}
use anymount.MountProto.{is_utf8, utf8_from, export_prefix}
use anymount.MountProto.Mnt.{Named, AtSlash}
use anymount.Handle.{to_hex, hex_digit}
use anymount.Server.Fetch.{fetch, fetch-Stores}
use anymount.Prelude.{
  ok, true, List, ℕ, ◌≤◌, to_be_bytes, ◌<◌, ◌^◌, ◌+◌, ◌≡◌, refl, arith, false, some, [], ◌∷◌, ◌++◌,
  length,
}
use anymount.MemFs.{new_tree, new_state, hello_bytes, mem_fs}
use anymount.MemFs.Served.{mem_fs-Stores}
use anymount.Handle.{export_from_secret, encode}
use anymount.Xdr.{new_reader, pad_len}
use anymount.Xdr.RoundTrip.{at}
use anymount.Rpc.{CallHeader, call, read_call_header}
use anymount.Rpc.Header.{Auth, call_bytes, read_call_header-call_bytes}
use anymount.Server.{Config}
use anymount.Server.Download.{download, download-Stores}
use anymount.Tests.Fixtures.{owner, secret, handle}
use anymount.Tests.Memory.{hello_node}

abbrev serving : Config
serving = record { serve_mount = false; export = export_from_secret secret }

abbrev no_auth : Auth
no_auth = record { flavor = 0; body = [] }

unlocked : new_state.poisoned ≡ false
unfolding new_state
unlocked = refl

abbrev unix_auth : Auth
unix_auth = record { flavor = 1; body = 0 ∷ 0 ∷ 0 ∷ 7 ∷ 109 ∷ [] }

abbrev third : CallHeader
third = record { xid = 3; prog = 100003; vers = 3; proc = 1 }

short : length (call_bytes third unix_auth no_auth ++ (9 ∷ [])) < 2 ^ 64
unfolding to_be_bytes pad_len
short = omega arith

read_call_header-call_bytes_example :
    read_call_header (new_reader (call_bytes third unix_auth no_auth ++ (9 ∷ [])))
    ≡ (call third, at (call_bytes third unix_auth no_auth) (9 ∷ []))
read_call_header-call_bytes_example =
    read_call_header-call_bytes third unix_auth no_auth (9 ∷ [])
      (record { xid = omega arith; prog = omega arith; vers = omega arith; proc = omega arith })
      (record { flavor = omega arith; body = omega arith })
      (record { flavor = omega arith; body = omega arith }) short

download-Stores_example :
    (download
      (mem_fs owner new_tree)
      5
      handle
      serving
      no_auth
      no_auth
      (encode handle 2)
      5
      (length hello_bytes + 1)
      0
      new_state).0
    ≡ some hello_bytes
download-Stores_example =
    download-Stores (mem_fs owner new_tree) 5 handle serving no_auth no_auth 2 5
      (λ s. s.poisoned ≡ false) hello_bytes new_state
      (mem_fs-Stores owner new_tree 2 hello_bytes hello_node) refl
      (record { flavor = omega arith; body = omega arith })
      (record { flavor = omega arith; body = omega arith }) (omega arith) (omega arith)
      (omega arith) (omega arith) unlocked

abbrev mounting : Config
mounting = record { serve_mount = true; export = export_from_secret secret }

-- The export path without a label.
abbrev export_path : List ℕ
export_path = export_prefix ++ (export_from_secret secret).hex

path_Named : Named (export_from_secret secret) export_path
unfolding is_utf8 utf8_from export_from_secret to_hex hex_digit AtSlash
path_Named = (refl, ([], refl, tt))

path_short : length export_path ≤ 1024
unfolding export_from_secret to_hex
path_short = omega arith

hello_there : (lookup owner new_tree 1 hello_name) ≡ ok (file_attr owner 2 (length hello_bytes))
unfolding lookup attr node get insert remove new_tree insert_name eq_name lt_name get_name
hello_there = refl

hello_Finds : Finds (mem_fs owner new_tree) (λ s. s.poisoned ≡ false) 1 hello_name 2
hello_Finds = record {
  found = λ s clean.
      (file_attr owner 2 (length hello_bytes), hello_there, unfold file_attr in refl, clean);
  keeps = λ s clean. clean;
}

fetch-Stores_example :
    (fetch
      (mem_fs owner new_tree)
      5
      handle
      mounting
      serving
      no_auth
      no_auth
      5
      (length hello_bytes + 1)
      export_path
      hello_name
      new_state).0
    ≡ some hello_bytes
fetch-Stores_example =
    fetch-Stores (mem_fs owner new_tree) 5 handle mounting serving no_auth no_auth 5 secret
      export_path hello_name 2 (λ s. s.poisoned ≡ false) hello_bytes new_state refl
      (record { flavor = omega arith; body = omega arith })
      (record { flavor = omega arith; body = omega arith }) (refl, omega arith) refl refl path_Named
      path_short (omega arith) (omega arith, omega arith, omega arith, omega arith) hello_Finds
      (mem_fs-Stores owner new_tree 2 hello_bytes hello_node) unlocked
