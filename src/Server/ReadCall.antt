-- ===== src/Server/ReadCall.antt =====
-- A READ3 call of an NFS client, from its bytes to the procedure of src/backend/nfs/nfs_proto.rs.
use anymount.Prelude.{
  ℕ, ◌^◌, ◌<◌, ◌≤◌, ◌≡◌, refl, some, List, [], ◌++◌, length, arith, to_be_bytes, length-to_be_bytes,
  length-append, append-nil, length-replicate,
}
use anymount.Fs.{ReadOnlyFs, ◌>>=◌}
use anymount.Xdr.{read_u32, pad_len}
use anymount.Xdr.Writes.{counted}
use anymount.Xdr.RoundTrip.{Fits-next, at, Fits, read_opaque_var-at, read_u64-at, read_u32-at}
use anymount.Handle.{FileHandle3, encode, resolve}
use anymount.Handle.Laws.{IsSecret, length-encode, resolve-encode}
use anymount.Rpc.{CallHeader, build_reply}
use anymount.Rpc.Header.{Auth, Sized, SizedCall, call_bytes, read_call_header-call_bytes}
use anymount.NfsProto.{Ctx, read, read_ino, min_of, rtmax, dispatch}
use anymount.Server.Defs.{Config, nfs_prog, call_nfs, route, handle_outcome, handle_message}

-- READ3args of RFC 1813.
abbrev pub read3args : List ℕ → ℕ → ℕ → List ℕ
read3args fh offset count = counted fh ++ (to_be_bytes 8 offset ++ to_be_bytes 4 count)

abbrev pub read_header : ℕ → CallHeader
read_header xid = record { xid = xid; prog = nfs_prog; vers = 3; proc = 6 }

abbrev pub read_call : ℕ → Auth → Auth → List ℕ → ℕ → ℕ → List ℕ
read_call xid cred verf fh offset count =
    call_bytes (read_header xid) cred verf ++ read3args fh offset count

pub length-read_call :
    (xid : ℕ) (cred verf : Auth) (fh : List ℕ) (offset count : ℕ)
    → Sized cred
    → Sized verf
    → length fh ≤ 64
    → length (read_call xid cred verf fh offset count) ≤ 1000
unfolding pad_len
length-read_call xid cred verf fh offset count hc hv hf =
    simp (length-append, length-to_be_bytes, length-replicate) (omega (arith, hc.body, hv.body))

-- A word at the end.
last_word :
    (before : List ℕ) (v : ℕ)
    → v < 2 ^ 32
    → Fits (at before (to_be_bytes 4 v))
    → read_u32 (at before (to_be_bytes 4 v)) ≡ (some v, at (before ++ to_be_bytes 4 v) [])
last_word before v h fits =
    rw (append-nil (to_be_bytes 4 v)) at
      (read_u32-at before [] v h (rw (append-nil (to_be_bytes 4 v)) fits))

module _ (F : ReadOnlyFs) (ctx : Ctx) where
  read-read3args :
      (before fh : List ℕ) (offset count : ℕ)
      → length fh ≤ 64
      → offset < 2 ^ 64
      → count < 2 ^ 32
      → Fits (at before (read3args fh offset count))
      → read F ctx (at before (read3args fh offset count))
        ≡ read_ino F ctx offset (min_of count rtmax) (resolve ctx.handle fh)
  unfolding read
  read-read3args before fh offset count hf ho hc fits =
      let w₁ = counted fh in
      let w₂ = to_be_bytes 8 offset in
      let w₃ = to_be_bytes 4 count in
      let f₁ = Fits-next before w₁ (w₂ ++ w₃) fits in
      let f₂ = Fits-next (before ++ w₁) w₂ w₃ f₁ in
      rw (
        read_opaque_var-at before (w₂ ++ w₃) fh 64 hf (omega arith) fits,
        read_u64-at (before ++ w₁) w₃ offset ho f₁,
        last_word ((before ++ w₁) ++ w₂) count hc f₂,
      )

-- The context in which the server handles a call.
abbrev pub ctx_of : FileHandle3 → Ctx
ctx_of handle = record { handle = handle; fsid = 1 }

module _ (F : ReadOnlyFs) (fuel : ℕ) (handle : FileHandle3) (config : Config) where
  dispatch_read :
      (c : CallHeader) (before fh : List ℕ) (offset count : ℕ) (s : F.State)
      → c.prog ≡ nfs_prog
      → c.vers ≡ 3
      → c.proc ≡ 6
      → length fh ≤ 64
      → offset < 2 ^ 64
      → count < 2 ^ 32
      → Fits (at before (read3args fh offset count))
      → let out = read_ino F (ctx_of handle) offset (min_of count rtmax) (resolve handle fh) s in
        route F fuel handle config c (at before (read3args fh offset count)) s
        ≡ (some (some (build_reply c.xid out.0)), out.1)
  unfolding route call_nfs dispatch
  dispatch_read c before fh offset count s p v q hf ho hc fits =
      rw (p, v, q, ◌>>=◌, read-read3args F (ctx_of handle) before fh offset count hf ho hc fits)
        refl

  -- The bytes of a READ3 call are answered by the procedure on the inode of the handle.
  pub handle_message-read_call :
      (xid : ℕ) (cred verf : Auth) (ino offset count : ℕ) (s : F.State)
      → IsSecret handle.secret
      → xid < 2 ^ 32
      → Sized cred
      → Sized verf
      → ino < 2 ^ 64
      → offset < 2 ^ 64
      → count < 2 ^ 32
      → let out = read_ino F (ctx_of handle) offset (min_of count rtmax) (some ino) s in
        handle_message F fuel handle config
          (read_call xid cred verf (encode handle ino) offset count)
          s
        ≡ (some (some (build_reply xid out.0)), out.1)
  unfolding handle_message handle_outcome
  handle_message-read_call xid cred verf ino offset count s hs hx hc hv hi ho hn =
      let fh = encode handle ino in
      let c = read_header xid in
      let len : length fh ≤ 64 = omega (arith, length-encode handle ino hs) in
      let fits : length (read_call xid cred verf fh offset count) < 2 ^ 64 =
        omega (arith, length-read_call xid cred verf fh offset count hc hv len) in
      let sized : SizedCall c = record {
        xid = hx;
        prog = omega arith;
        vers = omega arith;
        proc = omega arith;
      } in
      rw (
        read_call_header-call_bytes c cred verf (read3args fh offset count) sized hc hv fits,
        dispatch_read c (call_bytes c cred verf) fh offset count s refl refl refl len ho hn fits,
        resolve-encode handle ino hs hi,
      )
