-- ===== src/Server/Message.antt =====
-- What src/backend/nfs/server.rs answers a message with.
use anymount.Prelude.{
  ℕ, ◌+◌, ◌^◌, ◌<◌, ◌≡◌, refl, Bool, true, false, ◌&&◌, Option, none, some, List, ◌∷◌, ◌++◌, inl,
  inr,
}
use anymount.Prelude.{if◌then◌else◌, Bool-cases, to_be_bytes, ◌==◌}
use anymount.Fs.{ReadOnlyFs, Step}
use anymount.Xdr.{Reader, new_reader, write_u32, extend_from}
use anymount.Handle.{FileHandle3}
use anymount.Rpc.{
  HeaderOutcome, call, bad_rpcvers, malformed, read_call_header, rpc_mismatch_reply, ProcOutcome,
  success_with, proc_unavail, garbage_args, CallHeader, build_reply, write_reply_header,
}
use anymount.Rpc.{prog_unavail_reply, prog_mismatch_reply, write_prog_mismatch_body}
use anymount.NfsProto as NfsProto
use anymount.NfsProto.Returns.{dispatch-Gives}
use anymount.Readdir.Ends.{Given, Bounded}
use anymount.MountProto as MountProto
use anymount.Server.Defs.{
  Config, mount_prog, route, call_nfs, answer_with, replied, handle_message, handle_outcome,
}

-- The reply is to the call `xid`: it starts with that word and REPLY.
abbrev pub Echoes : ℕ → List ℕ → Type 0
Echoes xid reply = (rest : List ℕ) × (reply ≡ to_be_bytes 4 xid ++ (0 ∷ 0 ∷ 0 ∷ 1 ∷ rest))

build_reply-Echoes : (xid : ℕ) (o : ProcOutcome) → Echoes xid (build_reply xid o)
unfolding build_reply write_reply_header write_u32 extend_from to_be_bytes
build_reply-Echoes xid (success_with w) = (_, refl)
build_reply-Echoes xid proc_unavail = (_, refl)
build_reply-Echoes xid garbage_args = (_, refl)

unavail-Echoes : (xid : ℕ) → Echoes xid (prog_unavail_reply xid)
unfolding prog_unavail_reply write_reply_header write_u32 to_be_bytes
unavail-Echoes xid = (_, refl)

mismatch-Echoes : (xid : ℕ) → Echoes xid (prog_mismatch_reply xid)
unfolding prog_mismatch_reply write_prog_mismatch_body write_reply_header write_u32 to_be_bytes
mismatch-Echoes xid = (_, refl)

rpc_mismatch-Echoes : (xid : ℕ) → Echoes xid (rpc_mismatch_reply xid)
unfolding rpc_mismatch_reply write_reply_header write_u32 to_be_bytes
rpc_mismatch-Echoes xid = (_, refl)

-- While the MOUNT program is not served, a call of it is answered PROG_UNAVAIL, whatever its
-- version, procedure and arguments, and the filesystem is not called: no handle is handed out.
pub mount_gate :
    (F : ReadOnlyFs) (fuel : ℕ) (handle : FileHandle3) (config : Config) (c : CallHeader)
    (r : Reader) (s : F.State)
    → config.serve_mount ≡ false
    → c.prog ≡ mount_prog
    → route F fuel handle config c r s ≡ (some (some (prog_unavail_reply c.xid)), s)
unfolding route
mount_gate F fuel handle config c r s closed prog =
    let v : (c.vers == 3) && false ≡ false = elim (Bool-cases (c.vers == 3)) [
      | inl t ↦ rw t
      | inr f ↦ rw f
    ] in
    rw (prog, closed, v)

-- There is a reply, and it is to the call `xid`.
abbrev pub Answered : ℕ → Option (Option (List ℕ)) → Type 0
Answered xid x = (reply : List ℕ) × (x ≡ some (some reply)) × Echoes xid reply

unfoldable Answers : {S : Type 0} → ℕ → Step S (Option (Option (List ℕ))) → Type 0
Answers {S} xid m = (s : S) → Answered xid (m s).0

Answers-if :
    {S : Type 0} (xid : ℕ) (b : Bool) (m n : Step S (Option (Option (List ℕ))))
    → Answers xid m
    → Answers xid n
    → Answers xid (if b then m else n)
Answers-if xid true m n y z = y
Answers-if xid false m n y z = z

replied-Answers :
    (S : Type 0) (xid : ℕ) (reply : List ℕ) → Echoes xid reply → Answers {S = S} xid (replied reply)
unfolding Answers
replied-Answers S xid reply h s = (reply, refl, h)

answer_with-Answered :
    (xid : ℕ) (o : Option ProcOutcome) → Given o → Answered xid (answer_with xid o)
answer_with-Answered xid o (a, h) = rw h (build_reply xid a, refl, build_reply-Echoes xid a)

module _ (F : ReadOnlyFs) (limit : ℕ) (bounded : Bounded F limit) (small : limit + 3 < 2 ^ 64)
    (fuel : ℕ) (enough : limit < fuel) (handle : FileHandle3) (config : Config) where
  call_nfs-Answers : (c : CallHeader) (r : Reader) → Answers c.xid (call_nfs F fuel handle c r)
  unfolding Answers call_nfs
  call_nfs-Answers c r s =
      let ctx : NfsProto.Ctx = record { handle = handle; fsid = 1 } in
      answer_with-Answered c.xid (NfsProto.dispatch F ctx fuel c.proc r s).0
        (dispatch-Gives F ctx limit bounded small fuel enough c.proc r s)

  route-Answers : (c : CallHeader) (r : Reader) → Answers c.xid (route F fuel handle config c r)
  unfolding route
  route-Answers c r =
      let mismatch =
        replied-Answers F.State c.xid (prog_mismatch_reply c.xid) (mismatch-Echoes c.xid) in
      let unavail =
        replied-Answers F.State c.xid (prog_unavail_reply c.xid) (unavail-Echoes c.xid) in
      Answers-if c.xid _ _ _
        (replied-Answers F.State c.xid _
          (build_reply-Echoes c.xid (MountProto.dispatch c.proc r config.export handle)))
        (Answers-if c.xid _ _ _ mismatch (
          Answers-if c.xid _ _ _ unavail (
            Answers-if c.xid _ _ _ (call_nfs-Answers c r)
              (Answers-if c.xid _ _ _ mismatch unavail))))

-- What becomes of a message, by its header.
abbrev pub Handled : HeaderOutcome → Option (Option (List ℕ)) → Type 0
Handled malformed x = x ≡ some none
Handled (bad_rpcvers xid) x = Answered xid x
Handled (call c) x = Answered c.xid x

-- For a filesystem in which no directory has more than `limit` entries, a number below 2^64 - 3,
-- and with fuel for a page to each entry and one more, every message is dealt with, whatever it
-- asks and whatever the filesystem answers: a message without a readable header closes the
-- connection, and every other is answered, by a reply that starts with the transaction id of its
-- own header and the mark of a reply. In particular no listing goes on for ever.
pub handle_message-Handled :
    (F : ReadOnlyFs) (limit fuel : ℕ) (handle : FileHandle3) (config : Config) (body : List ℕ)
    (s : F.State)
    → Bounded F limit
    → limit + 3 < 2 ^ 64
    → limit < fuel
    → Handled (read_call_header (new_reader body)).0 (handle_message F fuel handle config body s).0
unfolding handle_message handle_outcome Answers
handle_message-Handled F limit fuel handle config body s bounded small enough =
    deal (read_call_header (new_reader body))
  where
    deal : (x : HeaderOutcome × Reader) → Handled x.0 (handle_outcome F fuel handle config x s).0
    deal (malformed, r) = refl
    deal (bad_rpcvers xid, r) = (rpc_mismatch_reply xid, refl, rpc_mismatch-Echoes xid)
    deal (call c, r) = route-Answers F limit bounded small fuel enough handle config c r s
