-- ===== src/Server/Fetch.antt =====
-- A whole session with src/backend/nfs/server.rs: a client that mounts, looks a name up in the root, and
-- reads the file.
use anymount.Prelude.{
  ℕ, ◌+◌, ◌^◌, ◌<◌, ◌≤◌, ◌≡◌, refl, ap, true, Option, none, some, List, ◌++◌, length, arith,
  to_be_bytes, length-to_be_bytes, length-append, All, IsByte, append_assoc,
}
use anymount.Types.{Ino, OsStr, root_ino}
use anymount.Fs.{ReadOnlyFs, Step, pure, ◌>>=◌}
use anymount.Fs.Contract.{Stores, Finds}
use anymount.Xdr.{new_reader, write_u32}
use anymount.Xdr.Writes.{counted, write_opaque_var-counted}
use anymount.Handle.{FileHandle3, encode, export_from_secret}
use anymount.Handle.Laws.{IsSecret, length-encode, resolve-encode}
use anymount.Rpc.{success_with}
use anymount.Rpc.Header.{Auth, Sized}
use anymount.NfsProto.Found.{lookup_in-Finds}
use anymount.MountProto.{mnt_path}
use anymount.MountProto.Mnt.{Named, granted, mnt_iff}
use anymount.Server.Defs.{Config, handle_message}
use anymount.Server.ReadCall.{ctx_of}
use anymount.Server.HandleResult.{handle_result, handle_result-build_reply}
use anymount.Server.HandleCall.{
  mnt_call, lookup_call, handle_message-mnt_call, handle_message-lookup_call,
}
use anymount.Server.Download.{download, download-Stores}

-- The handle that the reply hands out, if there is one that the client can read.
abbrev pub handed : ℕ → Option (Option (List ℕ)) → Option (List ℕ)
handed xid none = none
handed xid (some none) = none
handed xid (some (some bytes)) = (handle_result xid (new_reader bytes)).0

-- The flag that serves the MOUNT program is cleared after the first call.
module _ (F : ReadOnlyFs) (fuel : ℕ) (handle : FileHandle3) (mounting mounted : Config)
    (cred verf : Auth) (count calls : ℕ) where
  abbrev pub read_handed : Option (List ℕ) → Step F.State (Option (List ℕ))
  read_handed none = pure none
  read_handed (some fh) = download F fuel handle mounted cred verf fh count calls 0

  abbrev pub look_up : OsStr → Option (List ℕ) → Step F.State (Option (List ℕ))
  look_up name none = pure none
  look_up name (some root) = do
    reply ← handle_message F fuel handle mounted (lookup_call 1 cred verf root name)
    read_handed (handed 1 reply)

  unfoldable pub fetch : OsStr → OsStr → Step F.State (Option (List ℕ))
  fetch path name = do
    reply ← handle_message F fuel handle mounting (mnt_call 0 cred verf path)
    look_up name (handed 0 reply)

granted_bytes :
    (handle : FileHandle3)
    → granted handle
      ≡ success_with (
          to_be_bytes 4 0
          ++ (counted (encode handle root_ino) ++ (to_be_bytes 4 1 ++ to_be_bytes 4 1)))
unfolding write_u32
granted_bytes handle =
    ap success_with
      (rw (write_opaque_var-counted (encode handle root_ino) (to_be_bytes 4 0)) (simp append_assoc))

module _ (F : ReadOnlyFs) (fuel : ℕ) (handle : FileHandle3) (config : Config) (cred verf : Auth)
    (hc : Sized cred) (hv : Sized verf) (secret : IsSecret handle.secret) where
  mounts :
      (path : List ℕ) (s : F.State)
      → config.serve_mount ≡ true
      → length path ≤ 1024
      → mnt_path config.export handle path ≡ granted handle
      → let out = handle_message F fuel handle config (mnt_call 0 cred verf path) s in
        (handed 0 out.0 ≡ some (encode handle root_ino)) × (out.1 ≡ s)
  mounts path s serves hp ok_path =
      let fh = encode handle root_ino in
      let short : length fh ≤ 64 = omega (arith, length-encode handle root_ino secret) in
      let call =
        handle_message-mnt_call F fuel handle config cred verf hc hv 0 (omega arith) path s serves
          hp in
      let more : List ℕ = to_be_bytes 4 1 ++ to_be_bytes 4 1 in
      let small : length more < 2 ^ 32 =
        omega (arith, length-append (to_be_bytes 4 1) (to_be_bytes 4 1), length-to_be_bytes 4 1) in
      rw (call, ok_path, granted_bytes handle)
        (handle_result-build_reply 0 fh more (omega arith) short small, refl)

  finds :
      (Inv : F.State → Type 0) (name : OsStr) (ino : Ino) (s : F.State)
      → Finds F Inv root_ino name ino
      → length name ≤ 1024
      → Inv s
      → let out =
          handle_message F fuel handle config
            (lookup_call 1 cred verf (encode handle root_ino) name)
            s in
        (handed 1 out.0 ≡ some (encode handle ino)) × Inv out.1
  finds Inv name ino s law hn inv =
      let short : (i : Ino) → length (encode handle i) ≤ 64 =
        λ i. omega (arith, length-encode handle i secret) in
      let call =
        handle_message-lookup_call F fuel handle config cred verf hc hv 1 (omega arith)
          (encode handle root_ino) name s (short root_ino) hn in
      let (more, len, reply, kept) =
        lookup_in-Finds F (ctx_of handle) Inv root_ino name ino s law inv in
      rw (call, resolve-encode handle root_ino secret (omega arith), reply)
        (
          handle_result-build_reply 1 (encode handle ino) more (omega arith) (short ino)
              (omega (arith, len)),
          kept,
        )

-- A client that knows the export path of the mount, and the name of a file in its root, is given the
-- content of the file by the bytes of its calls alone: MNT while that program is served, LOOKUP3 in the
-- root that MNT handed out, whether MNT is still served or not, and READ3 of the handle that LOOKUP3
-- handed out until a reply has the end-of-file flag. The filesystem is any whose root keeps the name and
-- whose file keeps its content, of less than 2^63 bytes.
pub fetch-Stores :
    (F : ReadOnlyFs) (fuel : ℕ) (handle : FileHandle3) (mounting mounted : Config)
    (cred verf : Auth) (count : ℕ) (export_secret : List ℕ) (path name : List ℕ) (ino : Ino)
    (Inv : F.State → Type 0) (content : List ℕ) (s : F.State)
    → IsSecret handle.secret
    → Sized cred
    → Sized verf
    → (length export_secret ≡ 16) × All IsByte export_secret
    → mounting.serve_mount ≡ true
    → mounting.export ≡ export_from_secret export_secret
    → Named (export_from_secret export_secret) path
    → length path ≤ 1024
    → length name ≤ 1024
    → (ino < 2 ^ 64) × (0 < count) × (count < 2 ^ 32) × (length content < 2 ^ 63)
    → Finds F Inv root_ino name ino
    → Stores F Inv ino content
    → Inv s
    → (fetch F fuel handle mounting mounted cred verf count (length content + 1) path name s).0
      ≡ some content
unfolding fetch
fetch-Stores F fuel handle mounting mounted cred verf count export_secret path name ino Inv content
      s hs hc hv (el, eb) serves export named hp hn (hi, h0, hm, hl) found stored inv =
    let ok_path : mnt_path mounting.export handle path ≡ granted handle =
      rw export ((mnt_iff export_secret handle path el eb).1 named) in
    let (root, same) = mounts F fuel handle mounting cred verf hc hv hs path s serves hp ok_path in
    let (file, kept) = finds F fuel handle mounted cred verf hc hv hs Inv name ino s found hn inv in
    let s₂ =
      (handle_message F fuel handle mounted (lookup_call 1 cred verf (encode handle root_ino) name)
        s).1 in
    rw (◌>>=◌, root, same, file)
      (download-Stores F fuel handle mounted cred verf ino count Inv content s₂ stored hs hc hv hi
        h0 hm hl kept)
