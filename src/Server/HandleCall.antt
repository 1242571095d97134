-- ===== src/Server/HandleCall.antt =====
-- The calls that hand out a handle, MNT of src/backend/nfs/mount_proto.rs and LOOKUP3 of
-- src/backend/nfs/nfs_proto.rs, from their bytes to the procedures.
use anymount.Prelude.{
  ℕ, ◌+◌, ◌^◌, ◌<◌, ◌≤◌, ◌≡◌, refl, true, some, List, [], ◌++◌, length, arith, length-to_be_bytes,
  length-append, append-nil, length-replicate,
}
use anymount.Fs.{ReadOnlyFs}
use anymount.Fs as Fs
use anymount.Xdr.{read_opaque_var, read_string, pad_len}
use anymount.Xdr.Writes.{counted, length-counted}
use anymount.Xdr.RoundTrip.{Fits-next, at, Fits, read_opaque_var-at}
use anymount.Handle.{FileHandle3, resolve}
use anymount.Rpc.{CallHeader, build_reply}
use anymount.Rpc.Header.{Auth, Sized, SizedCall, call_bytes, read_call_header-call_bytes}
use anymount.NfsProto.{lookup, lookup_in, dispatch}
use anymount.MountProto as MountProto
use anymount.MountProto.{mnt, mnt_path, mntpathlen}
use anymount.Server.Defs.{
  Config, nfs_prog, mount_prog, call_nfs, route, handle_outcome, handle_message,
}
use anymount.Server.ReadCall.{ctx_of}

abbrev pub mnt_header : ℕ → CallHeader
mnt_header xid = record { xid = xid; prog = mount_prog; vers = 3; proc = 1 }

abbrev pub mnt_call : ℕ → Auth → Auth → List ℕ → List ℕ
mnt_call xid cred verf path = call_bytes (mnt_header xid) cred verf ++ counted path

abbrev pub lookup_header : ℕ → CallHeader
lookup_header xid = record { xid = xid; prog = nfs_prog; vers = 3; proc = 3 }

abbrev pub lookup_call : ℕ → Auth → Auth → List ℕ → List ℕ → List ℕ
lookup_call xid cred verf dirfh name =
    call_bytes (lookup_header xid) cred verf ++ (counted dirfh ++ counted name)

length-handle_call :
    (c : CallHeader) (cred verf : Auth) (args : List ℕ)
    → Sized cred
    → Sized verf
    → length args ≤ 3000
    → length (call_bytes c cred verf ++ args) < 2 ^ 64
unfolding pad_len
length-handle_call c cred verf args hc hv h =
    simp (length-append, length-to_be_bytes, length-replicate) (omega (arith, hc.body, hv.body))

counted_bound : (bytes : List ℕ) → length (counted bytes) ≤ length bytes + 8
counted_bound bytes = omega (arith, length-counted bytes)

last_counted :
    (before bytes : List ℕ) (max : ℕ)
    → length bytes ≤ max
    → max < 2 ^ 32
    → Fits (at before (counted bytes))
    → read_opaque_var max (at before (counted bytes))
      ≡ (some bytes, at (before ++ counted bytes) [])
last_counted before bytes max h hm fits =
    rw (append-nil (counted bytes)) at
      (read_opaque_var-at before [] bytes max h hm (rw (append-nil (counted bytes)) fits))

module _ (F : ReadOnlyFs) (fuel : ℕ) (handle : FileHandle3) (config : Config) (cred verf : Auth)
    (hc : Sized cred) (hv : Sized verf) (xid : ℕ) (hx : xid < 2 ^ 32) where
  route_mnt :
      (c : CallHeader) (before path : List ℕ) (s : F.State)
      → c.prog ≡ mount_prog
      → c.vers ≡ 3
      → c.proc ≡ 1
      → config.serve_mount ≡ true
      → length path ≤ 1024
      → Fits (at before (counted path))
      → route F fuel handle config c (at before (counted path)) s
        ≡ (some (some (build_reply c.xid (mnt_path config.export handle path))), s)
  unfolding route MountProto.dispatch mnt read_string
  route_mnt c before path s p v q serves hp fits =
      rw (p, v, q, serves, last_counted before path 1024 hp (omega arith) fits) refl

  pub handle_message-mnt_call :
      (path : List ℕ) (s : F.State)
      → config.serve_mount ≡ true
      → length path ≤ 1024
      → handle_message F fuel handle config (mnt_call xid cred verf path) s
        ≡ (some (some (build_reply xid (mnt_path config.export handle path))), s)
  unfolding handle_message handle_outcome
  handle_message-mnt_call path s serves hp =
      let c = mnt_header xid in
      let fits =
        length-handle_call c cred verf (counted path) hc hv (omega (arith, counted_bound path)) in
      let sized : SizedCall c = record {
        xid = hx;
        prog = omega arith;
        vers = omega arith;
        proc = omega arith;
      } in
      rw (
        read_call_header-call_bytes c cred verf (counted path) sized hc hv fits,
        route_mnt c (call_bytes c cred verf) path s refl refl refl serves hp fits,
      )

  route_lookup :
      (c : CallHeader) (before dirfh name : List ℕ) (s : F.State)
      → c.prog ≡ nfs_prog
      → c.vers ≡ 3
      → c.proc ≡ 3
      → length dirfh ≤ 64
      → length name ≤ 1024
      → Fits (at before (counted dirfh ++ counted name))
      → let out = lookup_in F (ctx_of handle) name (resolve handle dirfh) s in
        route F fuel handle config c (at before (counted dirfh ++ counted name)) s
        ≡ (some (some (build_reply c.xid out.0)), out.1)
  unfolding route call_nfs dispatch lookup read_string
  route_lookup c before dirfh name s p v q hd hn fits =
      rw
        (
          p,
          v,
          q,
          Fs.◌>>=◌,
          read_opaque_var-at before (counted name) dirfh 64 hd (omega arith) fits,
          last_counted (before ++ counted dirfh) name 1024 hn (omega arith)
              (Fits-next before (counted dirfh) (counted name) fits),
        )
        refl

  pub handle_message-lookup_call :
      (dirfh name : List ℕ) (s : F.State)
      → length dirfh ≤ 64
      → length name ≤ 1024
      → let out = lookup_in F (ctx_of handle) name (resolve handle dirfh) s in
        handle_message F fuel handle config (lookup_call xid cred verf dirfh name) s
        ≡ (some (some (build_reply xid out.0)), out.1)
  unfolding handle_message handle_outcome
  handle_message-lookup_call dirfh name s hd hn =
      let c = lookup_header xid in
      let args = counted dirfh ++ counted name in
      let fits = length-handle_call c cred verf args hc hv (
        omega (
          arith,
          counted_bound dirfh,
          counted_bound name,
          length-append (counted dirfh) (counted name),
        )) in
      let sized : SizedCall c = record {
        xid = hx;
        prog = omega arith;
        vers = omega arith;
        proc = omega arith;
      } in
      rw (
        read_call_header-call_bytes c cred verf args sized hc hv fits,
        route_lookup c (call_bytes c cred verf) dirfh name s refl refl refl hd hn fits,
      )
