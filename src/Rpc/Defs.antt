-- ===== src/Rpc/Defs.antt =====
-- src/backend/nfs/rpc.rs
use anymount.Prelude.{ℕ, zero, suc, ◌-◌, ◌*◌, ◌%◌, ◌^◌, not, Option, none, some}
use anymount.Prelude.{List, [], ◌∷◌, ◌++◌, Result, ok, err, length, take, drop, leb, ltb, ◌==◌}
use anymount.Prelude.{if◌then◌else◌, ◌|>◌, bit_and, bit_or, to_be_bytes, from_be_bytes}
use anymount.Error.{IoError, ErrorKind, io_error}
use anymount.Stream.{Stream, chunk, failed, unread, read_exact, unexpected_eof_error}
use anymount.Stream.{Output, write_all}
use anymount.Xdr.{Reader, Writer, new_writer, let_some, read_u32, skip_opaque_auth, write_u32}
use anymount.Xdr.{extend_from}

abbrev pub max_fragment_len : ℕ
max_fragment_len = 256 * 1024

abbrev pub last_fragment_bit : ℕ
last_fragment_bit = 0x8000_0000

-- `!LAST_FRAGMENT_BIT` on a u32.
abbrev pub fragment_len_mask : ℕ
fragment_len_mask = 0x7fff_ffff

-- `mod accept_stat`
abbrev pub success : ℕ
success = 0

abbrev pub prog_unavail : ℕ
prog_unavail = 1

abbrev pub prog_mismatch : ℕ
prog_mismatch = 2

abbrev pub proc_unavail_stat : ℕ
proc_unavail_stat = 3

abbrev pub garbage_args_stat : ℕ
garbage_args_stat = 4

-- The loop of `read_exact_or_eof` for `want` bytes more, `got` being those read so far. Each round
-- is one `read`, so it meets one event of the stream. `some got` stands for `Ok(true)` with the
-- buffer filled, `none` for `Ok(false)`.
unfoldable pub read_exact_or_eof : ℕ → List ℕ → Stream → Result (Option (List ℕ)) IoError × Stream
read_exact_or_eof zero got s = (ok (some got), s)
read_exact_or_eof (suc want) got [] =
    (if length got == 0 then ok none else err unexpected_eof_error, [])
read_exact_or_eof (suc want) got (failed e ∷ s) = (err e, s)
read_exact_or_eof (suc want) got (chunk b bs ∷ s) =
    let more = read_exact_or_eof (suc want - length (b ∷ bs)) (got ++ (b ∷ bs)) s in
    if leb (suc want) (length (b ∷ bs))
    then (ok (some (got ++ take (suc want) (b ∷ bs))), unread (drop (suc want) (b ∷ bs)) s)
    else more

-- `read_exact(&mut body)?; Ok(Some(body))`
unfoldable pub some_body :
    Result (List ℕ) IoError × Stream → Result (Option (List ℕ)) IoError × Stream
some_body (ok bytes, s) = (ok (some bytes), s)
some_body (err e, s) = (err e, s)

-- What follows the header word of `read_message`.
unfoldable pub read_body : ℕ → Stream → Result (Option (List ℕ)) IoError × Stream
read_body hdr s =
    let last = not (bit_and hdr last_fragment_bit == 0) in
    let len = bit_and hdr fragment_len_mask in
    if not last
    then (err (io_error ErrorKind.other_kind "multi-fragment RPC message not supported"), s)
    else if ltb max_fragment_len len
    then (err (io_error ErrorKind.other_kind "RPC fragment exceeds size limit"), s)
    else some_body (read_exact len [] s)

unfoldable pub after_header :
    Result (Option (List ℕ)) IoError × Stream → Result (Option (List ℕ)) IoError × Stream
after_header (err e, s) = (err e, s)
after_header (ok none, s) = (ok none, s)
after_header (ok (some bytes), s) = read_body (from_be_bytes bytes) s

unfoldable pub read_message : Stream → Result (Option (List ℕ)) IoError × Stream
read_message s = after_header (read_exact_or_eof 4 [] s)

unfoldable pub write_message : List ℕ → Output → Result (Unit {0}) IoError × Output
write_message body o =
    let hdr = bit_or last_fragment_bit (length body % 2 ^ 32) in
    let (first, o') = write_all (to_be_bytes 4 hdr) o in
    elim first [ err e ↦ (err e, o') | ok u ↦ write_all body o' ]

pub record CallHeader : Type 0 where
  pub xid : ℕ
  pub prog : ℕ
  pub vers : ℕ
  pub proc : ℕ

pub data HeaderOutcome : Type 0 where
  call : CallHeader → HeaderOutcome
  bad_rpcvers : ℕ → HeaderOutcome
  malformed : HeaderOutcome

-- The closure at the end of `read_call_header`, its `None` read as `Malformed`.
unfoldable pub read_call_body : ℕ → Reader → HeaderOutcome × Reader
read_call_body xid r =
    let bad = λ (r : Reader). (let x : HeaderOutcome × Reader = (malformed, r) in x) in
    let_some (read_u32 r) bad λ prog r. let_some (read_u32 r) bad λ vers r.
      let_some (read_u32 r) bad λ proc r. let_some (skip_opaque_auth r) bad λ cred r.
        let_some (skip_opaque_auth r) bad
          λ verf r. (call (record { xid = xid; prog = prog; vers = vers; proc = proc }), r)

unfoldable pub read_call_header : Reader → HeaderOutcome × Reader
read_call_header r =
    let bad = λ (r : Reader). (let x : HeaderOutcome × Reader = (malformed, r) in x) in
    let_some (read_u32 r) bad λ xid r. let_some (read_u32 r) bad λ mtype r.
      if not (mtype == 0)
      then bad r
      else let_some (read_u32 r) bad
          λ rpcvers r. if not (rpcvers == 2) then (bad_rpcvers xid, r) else read_call_body xid r

unfoldable pub rpc_mismatch_reply : ℕ → List ℕ
rpc_mismatch_reply xid =
    new_writer
    |> write_u32 xid
    |> write_u32 1
    |> write_u32 1
    |> write_u32 0
    |> write_u32 2
    |> write_u32 2

unfoldable pub write_reply_header : ℕ → ℕ → Writer → Writer
write_reply_header xid stat w =
    w |> write_u32 xid |> write_u32 1 |> write_u32 0 |> write_u32 0 |> write_u32 0 |> write_u32 stat

unfoldable pub write_prog_mismatch_body : ℕ → ℕ → Writer → Writer
write_prog_mismatch_body low high w = w |> write_u32 low |> write_u32 high

pub data ProcOutcome : Type 0 where
  success_with : Writer → ProcOutcome
  proc_unavail : ProcOutcome
  garbage_args : ProcOutcome

unfoldable pub build_reply : ℕ → ProcOutcome → List ℕ
build_reply xid (success_with body) =
    new_writer |> write_reply_header xid success |> extend_from body
build_reply xid proc_unavail = new_writer |> write_reply_header xid proc_unavail_stat
build_reply xid garbage_args = new_writer |> write_reply_header xid garbage_args_stat

unfoldable pub prog_unavail_reply : ℕ → List ℕ
prog_unavail_reply xid = new_writer |> write_reply_header xid prog_unavail

unfoldable pub prog_mismatch_reply : ℕ → List ℕ
prog_mismatch_reply xid =
    new_writer |> write_reply_header xid prog_mismatch |> write_prog_mismatch_body 3 3
