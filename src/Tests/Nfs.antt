-- ===== src/Tests/Nfs.antt =====
-- The NFS and MOUNT programs and the server at concrete calls.
use anymount.Prelude.{
  Option, ap, ℕ, ◌*◌, ◌≡◌, ◌≤◌, ◌↔◌, refl, false, true, List, [], ◌∷◌, ◌++◌, some, none, ok, err,
  length-drop, arith, length, All, replicate, to_be_bytes, from_be_bytes, Bool, ltb, if◌then◌else◌,
  ◌|>◌,
}
use anymount.Fs.Logged.{opened, released, logged}
use anymount.Xdr.{
  Reader, Writer, new_reader, read_opaque_var, read_u32, take_bytes, write_u32, write_bool,
  write_opaque_var, pad_len,
}
use anymount.Handle.{encode, resolve, export_from_secret}
use anymount.Types.{DirEntry}
use anymount.Fs.{FsResult}
use anymount.Readdir.Ends.{Bounded}
use anymount.Rpc.{ProcOutcome, success_with, read_call_header}
use anymount.NfsProto.{dispatch, readdir_ino, read_ino}
use anymount.NfsProto.Rejects.{Refusal, refusals, dispatch_refuses}
use anymount.NfsProto.Stale.{dispatch-Untouched}
use anymount.NfsProto.Budget.{outcome_len, readdir_budget}
use anymount.NfsProto.ReadReply.{read_releases, read_reply}
use anymount.MountProto.{mnt_path, export_prefix}
use anymount.MountProto.Mnt.{Named, granted, mnt_iff}
use anymount.Server.{Config, Round, handle_message, run, max_connections}
use anymount.Server.Message.{Handled, handle_message-Handled}
use anymount.Server.Workers.{run_cap}
use anymount.Tests.Fixtures.{secret, handle, ctx, one_file, entries}

abbrev no_handle : Reader
no_handle = record { buf = 0 ∷ 0 ∷ 0 ∷ 1 ∷ 65 ∷ 0 ∷ 0 ∷ 0 ∷ []; pos = 0 }

dispatch_refuses_example :
    All
      (λ (c : Refusal).
        dispatch one_file ctx 5 c.proc no_handle tt
        ≡ (some (success_with (to_be_bytes 4 c.stat ++ replicate (c.absent * 4) 0)), tt))
      refusals
dispatch_refuses_example = dispatch_refuses one_file ctx 5 no_handle tt

abbrev some_or_empty : Option (List ℕ) → List ℕ
some_or_empty (some x) = x
some_or_empty none = []

no_handle_unresolved :
    (fh : List ℕ) → (read_opaque_var 64 no_handle).0 ≡ some fh → resolve handle fh ≡ none
unfolding read_opaque_var read_u32 take_bytes pad_len from_be_bytes resolve
no_handle_unresolved fh h = let e : 65 ∷ [] ≡ fh = ap some_or_empty h in rw (← e)

dispatch-Untouched_example :
    (o : ProcOutcome) × ((s : Unit {0}) → dispatch one_file ctx 5 6 no_handle s ≡ (some o, s))
dispatch-Untouched_example =
    dispatch-Untouched one_file ctx no_handle (λ fh h. no_handle_unresolved fh h) 5 6

readdir_budget_example :
    outcome_len (readdir_ino one_file ctx 5 0 150 false (some 1) tt).0
    ≤ (if ltb 150 108 then 108 else 150)
readdir_budget_example = readdir_budget one_file ctx 1 5 0 150 false tt

read_releases_example :
    (read_ino (logged one_file) ctx 0 2 (some 2) (tt, [])).1.1 ≡ opened 7 ∷ released 7 ∷ []
read_releases_example = read_releases one_file ctx 2 0 2 tt []

read_reply_example :
    (before : Writer) × (eof : Bool) × (file_data : List ℕ) × ((read_ino one_file ctx 0 2
        (some 2)
        tt).0
      ≡ success_with
          (before |> write_u32 (length file_data) |> write_bool eof |> write_opaque_var file_data))
    × (length file_data ≤ 2)
    × (length file_data ≤ 3)
read_reply_example = read_reply one_file ctx 2 0 2 tt 7 3 refl refl

abbrev mnt_example_path : List ℕ
mnt_example_path = export_prefix ++ ((export_from_secret secret).hex ++ (b'/' ∷ b'm' ∷ []))

abbrev closed : Config
closed = record { serve_mount = false; export = export_from_secret secret }

abbrev rounds : List Round
rounds = record { stop = false; is_finished = λ w. true; accept_conn = ok 3 } ∷ []

run_cap_example : length (run rounds (1 ∷ 2 ∷ [])) ≤ max_connections
run_cap_example = run_cap rounds (1 ∷ 2 ∷ []) (omega arith)

mnt_iff_example :
    (mnt_path (export_from_secret secret) handle mnt_example_path ≡ granted handle)
    ↔ Named (export_from_secret secret) mnt_example_path
mnt_iff_example = mnt_iff secret handle mnt_example_path refl (omega arith)

page_len : FsResult (List DirEntry) → ℕ
page_len (ok page) = length page
page_len (err e) = 0

one_file-Bounded : Bounded one_file 1
unfolding page_len
one_file-Bounded dir o s e es h = omega (arith, ap page_len h, length-drop o entries)

-- READDIR3 of the root from its start, with the transaction id 9.
abbrev readdir_body : List ℕ
readdir_body =
    0
    ∷ 0
    ∷ 0
    ∷ 9
    ∷ 0
    ∷ 0
    ∷ 0
    ∷ 0
    ∷ 0
    ∷ 0
    ∷ 0
    ∷ 2
    ∷ 0
    ∷ 1
    ∷ 134
    ∷ 163
    ∷ 0
    ∷ 0
    ∷ 0
    ∷ 3
    ∷ 0
    ∷ 0
    ∷ 0
    ∷ 16
    ∷ 0
    ∷ 0
    ∷ 0
    ∷ 0
    ∷ 0
    ∷ 0
    ∷ 0
    ∷ 0
    ∷ 0
    ∷ 0
    ∷ 0
    ∷ 0
    ∷ 0
    ∷ 0
    ∷ 0
    ∷ 0
    ∷ (to_be_bytes 4 24 ++ (encode handle 1 ++ (replicate 16 0 ++ (0 ∷ 0 ∷ 1 ∷ 0 ∷ []))))

handle_message-Handled_example :
    Handled
      (read_call_header (new_reader readdir_body)).0
      (handle_message one_file 5 handle closed readdir_body tt).0
handle_message-Handled_example =
    handle_message-Handled one_file 1 5 handle closed readdir_body tt one_file-Bounded (omega arith)
      (omega arith)
