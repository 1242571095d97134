-- ===== src/Server/ReadResult.antt =====
-- The reply to a READ3 call, as a client takes it apart.
use anymount.Prelude.{
  ℕ, ◌+◌, ◌-◌, ◌^◌, ◌<◌, ◌≡◌, ap, ◌∙◌, Bool, true, ◌&&◌, some, List, [], ◌++◌, length, leb, ◌==◌,
  if◌then◌else◌, arith, to_be_bytes, append_assoc, length-to_be_bytes, length-append, append-nil,
  ==_refl, length-replicate,
}
use anymount.Types.{FileAttr}
use anymount.Xdr.{
  Read, fail, pure, ◌>>=◌, ◌>>◌, new_reader, read_u32, read_bool, read_opaque_var, skip_opaque_auth,
  pad_len, write_u32, write_bool, extend_from,
}
use anymount.Xdr.Writes.{counted, write_opaque_var-counted}
use anymount.Xdr.RoundTrip.{
  Fits-next, flag, read_bool-at, at, Fits, read_u32-at, read_opaque_var-at,
}
use anymount.Rpc.{success_with, build_reply, write_reply_header}
use anymount.Rpc.Header.{Auth, auth_bytes, skip_opaque_auth-at}
use anymount.NfsProto.{Ctx, write_fattr3, write_post_op_attr_ok}
use anymount.NfsProto.Lengths.{write_fattr3-append, length-write_fattr3}
use anymount.NfsProto.PostOp.{skip_attr, skip-at}
use anymount.NfsProto.Content.{read3resok}

-- `reply_body` of RFC 5531 with READ3res of RFC 1813: the data and the end-of-file flag.
unfoldable pub read3res : ℕ → Read (List ℕ × Bool)
read3res xid = do
  x ← read_u32
  mtype ← read_u32
  reply_stat ← read_u32
  skip_opaque_auth
  accept_stat ← read_u32
  status ← read_u32
  attributes_follow ← read_bool
  skip_attr attributes_follow
  count ← read_u32
  eof ← read_bool
  file_data ← read_opaque_var (2 ^ 32 - 1)
  (if (x == xid)
        && (mtype == 1)
        && (reply_stat == 0)
        && (accept_stat == 0)
        && (status == 0)
        && (count == length file_data)
      then pure (file_data, eof)
      else fail)

abbrev auth_none : Auth
auth_none = record { flavor = 0; body = [] }

module _ (ctx : Ctx) (a : FileAttr) (xid offset size : ℕ) (file_data : List ℕ) where
  abbrev eof : Bool
  eof = leb size (offset + length file_data)

  abbrev attributes : List ℕ
  attributes = write_fattr3 a ctx.fsid []

  reply_bytes :
      build_reply xid (success_with (read3resok ctx a offset size file_data))
      ≡ to_be_bytes 4 xid
        ++ (to_be_bytes 4 1
            ++ (to_be_bytes 4 0
                ++ (auth_bytes auth_none
                    ++ (to_be_bytes 4 0
                        ++ (to_be_bytes 4 0
                            ++ (to_be_bytes 4 1
                                ++ (attributes
                                    ++ (to_be_bytes 4 (length file_data)
                                        ++ (to_be_bytes 4 (flag eof) ++ counted file_data)))))))))
  unfolding build_reply write_reply_header write_u32 write_bool write_post_op_attr_ok extend_from
      pad_len
  reply_bytes =
      let front = to_be_bytes 4 0 ++ to_be_bytes 4 1 in
      rw (write_opaque_var-counted, write_fattr3-append a ctx.fsid front) (simp append_assoc)

last_opaque :
    (before bytes : List ℕ)
    → length bytes < 2 ^ 32
    → Fits (at before (counted bytes))
    → read_opaque_var (2 ^ 32 - 1) (at before (counted bytes))
      ≡ (some bytes, at (before ++ counted bytes) [])
last_opaque before bytes h fits = rw (append-nil (counted bytes)) at (
    read_opaque_var-at before [] bytes (2 ^ 32 - 1) (omega arith) (omega arith)
      (rw (append-nil (counted bytes)) fits))

read3res_parts :
    (xid : ℕ) (x file_data : List ℕ) (b : Bool)
    → xid < 2 ^ 32
    → length x ≡ 84
    → length file_data < 2 ^ 32
    → let w₁ = to_be_bytes 4 xid in
      let w₂ = to_be_bytes 4 1 in
      let w₃ = to_be_bytes 4 0 in
      let w₄ = auth_bytes auth_none in
      let w₉ = to_be_bytes 4 (length file_data) in
      let w₁₀ = to_be_bytes 4 (flag b) in
      let last = counted file_data in
      let body =
        w₁ ++ (w₂ ++ (w₃ ++ (w₄ ++ (w₃ ++ (w₃ ++ (w₂ ++ (x ++ (w₉ ++ (w₁₀ ++ last))))))))) in
      length body < 2 ^ 64 → (read3res xid (at [] body)).0 ≡ some (file_data, b)
unfolding read3res
read3res_parts xid x file_data b hx hl hd fits =
    let w₁ = to_be_bytes 4 xid in
    let w₂ = to_be_bytes 4 1 in
    let w₃ = to_be_bytes 4 0 in
    let w₄ = auth_bytes auth_none in
    let w₉ = to_be_bytes 4 (length file_data) in
    let w₁₀ = to_be_bytes 4 (flag b) in
    let a₁₀ = counted file_data in
    let b₁ = w₁ in
    let b₂ = b₁ ++ w₂ in
    let b₃ = b₂ ++ w₃ in
    let b₄ = b₃ ++ w₄ in
    let b₅ = b₄ ++ w₃ in
    let b₆ = b₅ ++ w₃ in
    let b₇ = b₆ ++ w₂ in
    let b₈ = b₇ ++ x in
    let b₉ = b₈ ++ w₉ in
    let b₁₀ = b₉ ++ w₁₀ in
    let a₉ = w₁₀ ++ a₁₀ in
    let a₈ = w₉ ++ a₉ in
    let a₇ = x ++ a₈ in
    let a₆ = w₂ ++ a₇ in
    let a₅ = w₃ ++ a₆ in
    let a₄ = w₃ ++ a₅ in
    let a₃ = w₄ ++ a₄ in
    let a₂ = w₃ ++ a₃ in
    let a₁ = w₂ ++ a₂ in
    let f₁ = Fits-next [] w₁ a₁ fits in
    let f₂ = Fits-next b₁ w₂ a₂ f₁ in
    let f₃ = Fits-next b₂ w₃ a₃ f₂ in
    let f₄ = Fits-next b₃ w₄ a₄ f₃ in
    let f₅ = Fits-next b₄ w₃ a₅ f₄ in
    let f₆ = Fits-next b₅ w₃ a₆ f₅ in
    let f₇ = Fits-next b₆ w₂ a₇ f₆ in
    let f₈ = Fits-next b₇ x a₈ f₇ in
    let f₉ = Fits-next b₈ w₉ a₉ f₈ in
    let f₁₀ = Fits-next b₉ w₁₀ a₁₀ f₉ in
    rw (
      ◌>>=◌,
      read_u32-at [] a₁ xid hx fits,
      read_u32-at b₁ a₂ 1 (omega arith) f₁,
      read_u32-at b₂ a₃ 0 (omega arith) f₂,
      skip_opaque_auth-at auth_none b₃ a₄ (record { flavor = omega arith; body = omega arith }) f₃,
      read_u32-at b₄ a₅ 0 (omega arith) f₄,
      read_u32-at b₅ a₆ 0 (omega arith) f₅,
      read_bool-at b₆ a₇ true f₆,
      skip-at 84 b₇ x a₈ hl f₇,
      read_u32-at b₈ a₉ (length file_data) hd f₈,
      read_bool-at b₉ a₁₀ b f₉,
      last_opaque b₁₀ file_data hd f₁₀,
      ==_refl xid,
      ==_refl (length file_data),
    )

-- A client reads back from the bytes of the reply the data and the flag that the procedure put in.
pub read3res-build_reply :
    (ctx : Ctx) (a : FileAttr) (xid offset size : ℕ) (file_data : List ℕ)
    → xid < 2 ^ 32
    → length file_data < 2 ^ 32
    → (read3res xid
        (new_reader (build_reply xid (success_with (read3resok ctx a offset size file_data))))).0
      ≡ some (file_data, leb size (offset + length file_data))
unfolding new_reader pad_len
read3res-build_reply ctx a xid offset size file_data hx hd =
    let x = write_fattr3 a ctx.fsid [] in
    let hl : length x ≡ 84 = length-write_fattr3 a ctx.fsid [] in
    let b = leb size (offset + length file_data) in
    ap (λ (bytes : List ℕ). (read3res xid (at [] bytes)).0)
      (reply_bytes ctx a xid offset size file_data)
    ∙ read3res_parts xid x file_data b hx hl hd
        (simp (length-append, length-to_be_bytes, length-replicate, hl) (omega (arith, hd)))
