-- ===== src/Server/HandleResult.antt =====
-- The reply to a call that hands out a handle, MNT of src/backend/nfs/mount_proto.rs or LOOKUP3 of
-- src/backend/nfs/nfs_proto.rs, as a client takes it apart.
use anymount.Prelude.{
  ℕ, ◌^◌, ◌<◌, ◌≤◌, ◌≡◌, ap, ◌∙◌, some, List, [], ◌++◌, length, arith, to_be_bytes,
  length-to_be_bytes, ◌==◌, ◌&&◌, if◌then◌else◌, ==_refl, length-append, append_assoc,
  length-replicate,
}
use anymount.Xdr.{
  Read, fail, pure, ◌>>=◌, ◌>>◌, new_reader, read_u32, read_opaque_var, skip_opaque_auth, pad_len,
  write_u32, extend_from,
}
use anymount.Xdr.Writes.{counted}
use anymount.Xdr.RoundTrip.{Fits-next, at, read_opaque_var-at, read_u32-at}
use anymount.Rpc.{build_reply, success_with, write_reply_header}
use anymount.Rpc.Header.{Auth, auth_bytes, skip_opaque_auth-at}

-- The handle in a reply of the two, or nothing if the status is not OK.
unfoldable pub handle_result : ℕ → Read (List ℕ)
handle_result xid = do
  x ← read_u32
  mtype ← read_u32
  reply_stat ← read_u32
  skip_opaque_auth
  accept_stat ← read_u32
  status ← read_u32
  fh ← read_opaque_var 64
  (if (x == xid) && (mtype == 1) && (reply_stat == 0) && (accept_stat == 0) && (status == 0)
      then pure fh
      else fail)

abbrev auth_none : Auth
auth_none = record { flavor = 0; body = [] }

result_parts :
    (xid : ℕ) (fh more : List ℕ)
    → xid < 2 ^ 32
    → length fh ≤ 64
    → let w₁ = to_be_bytes 4 xid in
      let w₂ = to_be_bytes 4 1 in
      let w₃ = to_be_bytes 4 0 in
      let body =
        w₁ ++ (w₂ ++ (w₃ ++ (auth_bytes auth_none ++ (w₃ ++ (w₃ ++ (counted fh ++ more)))))) in
      length body < 2 ^ 64 → (handle_result xid (at [] body)).0 ≡ some fh
unfolding handle_result
result_parts xid fh more hx hf fits =
    let w₁ = to_be_bytes 4 xid in
    let w₂ = to_be_bytes 4 1 in
    let w₃ = to_be_bytes 4 0 in
    let w₄ = auth_bytes auth_none in
    let a₆ = counted fh ++ more in
    let a₅ = w₃ ++ a₆ in
    let a₄ = w₃ ++ a₅ in
    let a₃ = w₄ ++ a₄ in
    let a₂ = w₃ ++ a₃ in
    let a₁ = w₂ ++ a₂ in
    let b₁ = w₁ in
    let b₂ = b₁ ++ w₂ in
    let b₃ = b₂ ++ w₃ in
    let b₄ = b₃ ++ w₄ in
    let b₅ = b₄ ++ w₃ in
    let b₆ = b₅ ++ w₃ in
    let f₁ = Fits-next [] w₁ a₁ fits in
    let f₂ = Fits-next b₁ w₂ a₂ f₁ in
    let f₃ = Fits-next b₂ w₃ a₃ f₂ in
    let f₄ = Fits-next b₃ w₄ a₄ f₃ in
    let f₅ = Fits-next b₄ w₃ a₅ f₄ in
    let f₆ = Fits-next b₅ w₃ a₆ f₅ in
    rw (
      ◌>>=◌,
      read_u32-at [] a₁ xid hx fits,
      read_u32-at b₁ a₂ 1 (omega arith) f₁,
      read_u32-at b₂ a₃ 0 (omega arith) f₂,
      skip_opaque_auth-at auth_none b₃ a₄ (record { flavor = omega arith; body = omega arith }) f₃,
      read_u32-at b₄ a₅ 0 (omega arith) f₄,
      read_u32-at b₅ a₆ 0 (omega arith) f₅,
      read_opaque_var-at b₆ more fh 64 hf (omega arith) f₆,
      ==_refl xid,
    )

-- A client reads back the handle that a procedure put behind its status.
pub handle_result-build_reply :
    (xid : ℕ) (fh more : List ℕ)
    → xid < 2 ^ 32
    → length fh ≤ 64
    → length more < 2 ^ 32
    → (handle_result xid
        (new_reader (build_reply xid (success_with (to_be_bytes 4 0 ++ (counted fh ++ more)))))).0
      ≡ some fh
unfolding new_reader build_reply write_reply_header write_u32 extend_from pad_len
handle_result-build_reply xid fh more hx hf hm =
    let w₁ = to_be_bytes 4 xid in
    let w₂ = to_be_bytes 4 1 in
    let w₃ = to_be_bytes 4 0 in
    let nested =
      w₁ ++ (w₂ ++ (w₃ ++ (auth_bytes auth_none ++ (w₃ ++ (w₃ ++ (counted fh ++ more)))))) in
    let split : build_reply xid (success_with (w₃ ++ (counted fh ++ more))) ≡ nested =
      simp append_assoc in
    ap (λ (b : List ℕ). (handle_result xid (at [] b)).0) split
    ∙ result_parts xid fh more hx hf
        (simp (length-append, length-to_be_bytes, length-replicate) (omega (arith, hf, hm)))
