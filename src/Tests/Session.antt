-- ===== src/Tests/Session.antt =====
-- A connection on which a client makes two calls and then hangs up.
use anymount.Prelude.{
  ℕ, ◌≡◌, refl, arith, false, some, List, [], ◌∷◌, ◌++◌, to_be_bytes, to_le_bytes, from_be_bytes,
  from_le_bytes,
}
use anymount.Stream.{Stream, chunk, write_all}
use anymount.Xdr.{read_u32, take_bytes, new_reader, skip_opaque_auth, skip, pad_len}
use anymount.Rpc.{
  write_message, read_call_header, read_call_body, prog_unavail_reply, prog_mismatch_reply,
}
use anymount.Rpc.Chunks.{bytes_of}
use anymount.Server.{Seen, returned, serve_connection, handle_message, handle_outcome, route}
use anymount.Server.Connection.{Call, Replies, wire, bodies_of, rounds_of, serve_connection-Replies}
use anymount.Handle.{export_from_secret}
use anymount.Tests.Fixtures.{secret, handle, one_file}

abbrev seen : Seen
seen = record {
  stop = false;
  config = record { serve_mount = false; export = export_from_secret secret };
}

-- A call with transaction 9 of the MOUNT program, and one of version 4 of NFS.
abbrev mount_call : List ℕ
mount_call =
    0 ∷ 0 ∷ 0 ∷ 9 ∷ 0 ∷ 0 ∷ 0 ∷ 0 ∷ 0 ∷ 0 ∷ 0 ∷ 2 ∷ 0 ∷ 1 ∷ 134 ∷ 165 ∷ 0 ∷ 0 ∷ 0 ∷ 3 ∷ 0 ∷ 0 ∷ 0
    ∷ 1 ∷ 0 ∷ 0 ∷ 0 ∷ 0 ∷ 0 ∷ 0 ∷ 0 ∷ 0 ∷ 0 ∷ 0 ∷ 0 ∷ 0 ∷ 0 ∷ 0 ∷ 0 ∷ 0 ∷ []

abbrev nfs4_call : List ℕ
nfs4_call =
    0 ∷ 0 ∷ 0 ∷ 10 ∷ 0 ∷ 0 ∷ 0 ∷ 0 ∷ 0 ∷ 0 ∷ 0 ∷ 2 ∷ 0 ∷ 1 ∷ 134 ∷ 163 ∷ 0 ∷ 0 ∷ 0 ∷ 4 ∷ 0 ∷ 0 ∷ 0
    ∷ 1 ∷ 0 ∷ 0 ∷ 0 ∷ 0 ∷ 0 ∷ 0 ∷ 0 ∷ 0 ∷ 0 ∷ 0 ∷ 0 ∷ 0 ∷ 0 ∷ 0 ∷ 0 ∷ 0 ∷ []

abbrev calls : List Call
calls = (seen, mount_call) ∷ (seen, nfs4_call) ∷ []

abbrev replies : List (List ℕ)
replies = prog_unavail_reply 9 ∷ prog_mismatch_reply 10 ∷ []

-- The whole arrives in one chunk.
abbrev arriving : Stream
arriving = chunk 128 ((0 ∷ 0 ∷ 40 ∷ mount_call) ++ (128 ∷ 0 ∷ 0 ∷ 40 ∷ nfs4_call)) ∷ []

on_the_wire : bytes_of arriving ≡ wire (bodies_of calls)
unfolding bytes_of wire bodies_of write_message write_all to_be_bytes to_le_bytes
on_the_wire = refl

first_reply :
    (handle_message one_file 2 handle seen.config mount_call tt).0
    ≡ some (some (prog_unavail_reply 9))
unfolding handle_message handle_outcome route read_call_header read_call_body read_u32 take_bytes
    new_reader skip_opaque_auth skip pad_len from_be_bytes from_le_bytes
first_reply = refl

second_reply :
    (handle_message one_file 2 handle seen.config nfs4_call tt).0
    ≡ some (some (prog_mismatch_reply 10))
unfolding handle_message handle_outcome route read_call_header read_call_body read_u32 take_bytes
    new_reader skip_opaque_auth skip pad_len from_be_bytes from_le_bytes
second_reply = refl

answered : Replies one_file 2 handle calls replies tt tt
answered = (
  refl,
  omega arith,
  _,
  _,
  refl,
  first_reply,
  (refl, omega arith, _, _, refl, second_reply, (refl, refl)),
)

serve_connection-Replies_example :
    serve_connection one_file 2 handle
      (rounds_of calls seen)
      arriving
      (record { sent = []; answers = [] })
      tt
    ≡ ((returned, record { sent = wire replies; answers = [] }), tt)
serve_connection-Replies_example =
    serve_connection-Replies one_file 2 handle calls replies seen arriving tt tt answered refl tt
      on_the_wire
