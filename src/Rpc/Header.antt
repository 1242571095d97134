-- ===== src/Rpc/Header.antt =====
-- The header of a call, as a client of src/backend/nfs/rpc.rs lays it out.
use anymount.Prelude.{
  ℕ, ◌%◌, ◌^◌, ◌≤◌, ◌<◌, ◌≡◌, ap, ◌∙◌, some, List, [], ◌++◌, length, append_assoc, arith,
  to_be_bytes, replicate, length-replicate,
}
use anymount.Xdr.{Reader, new_reader, skip, skip_opaque_auth, pad_len}
use anymount.Xdr.Writes.{counted}
use anymount.Xdr.RoundTrip.{Fits-next, at, Fits, take_bytes-at, read_u32-at}
use anymount.Rpc.Defs.{CallHeader, HeaderOutcome, call, read_call_body, read_call_header}

-- `opaque_auth` of RFC 5531: the flavor and the body.
pub record Auth : Type 0 where
  pub flavor : ℕ
  pub body : List ℕ

pub record Sized (a : Auth) : Type 0 where
  pub flavor : a.flavor < 2 ^ 32
  pub body : length a.body ≤ 400

abbrev pub auth_bytes : Auth → List ℕ
auth_bytes a = to_be_bytes 4 a.flavor ++ counted a.body

-- `call_body` of RFC 5531, behind the transaction id and CALL.
abbrev pub call_bytes : CallHeader → Auth → Auth → List ℕ
call_bytes c cred verf =
    to_be_bytes 4 c.xid
    ++ (to_be_bytes 4 0
        ++ (to_be_bytes 4 2
            ++ (to_be_bytes 4 c.prog
                ++ (to_be_bytes 4 c.vers
                    ++ (to_be_bytes 4 c.proc ++ (auth_bytes cred ++ auth_bytes verf))))))

auth_parts :
    (before after bytes pad : List ℕ) (flavor : ℕ)
    → flavor < 2 ^ 32
    → length bytes ≤ 400
    → length pad ≡ pad_len (length bytes)
    → let word = to_be_bytes 4 flavor in
      let len = to_be_bytes 4 (length bytes % 2 ^ 32) in
      Fits (at before (word ++ (len ++ (bytes ++ (pad ++ after)))))
      → skip_opaque_auth (at before (word ++ (len ++ (bytes ++ (pad ++ after)))))
        ≡ (some tt, at ((((before ++ word) ++ len) ++ bytes) ++ pad) after)
unfolding skip_opaque_auth skip
auth_parts before after bytes pad flavor hf hb hp h =
    let word : List ℕ = to_be_bytes 4 flavor in
    let len : List ℕ = to_be_bytes 4 (length bytes % 2 ^ 32) in
    let h1 = Fits-next before word (len ++ (bytes ++ (pad ++ after))) h in
    let h2 = Fits-next (before ++ word) len (bytes ++ (pad ++ after)) h1 in
    let h3 = Fits-next ((before ++ word) ++ len) bytes (pad ++ after) h2 in
    ground (
      arith,
      read_u32-at before (len ++ (bytes ++ (pad ++ after))) flavor hf h,
      read_u32-at (before ++ word) (bytes ++ (pad ++ after)) (length bytes % 2 ^ 32) (omega arith)
          h1,
      take_bytes-at ((before ++ word) ++ len) bytes (pad ++ after) h2,
      take_bytes-at (((before ++ word) ++ len) ++ bytes) pad after h3,
    )

pub skip_opaque_auth-at :
    (a : Auth) (before after : List ℕ)
    → Sized a
    → Fits (at before (auth_bytes a ++ after))
    → skip_opaque_auth (at before (auth_bytes a ++ after))
      ≡ (some tt, at (before ++ auth_bytes a) after)
skip_opaque_auth-at a before after h fits =
    let word : List ℕ = to_be_bytes 4 a.flavor in
    let len : List ℕ = to_be_bytes 4 (length a.body % 2 ^ 32) in
    let pad : List ℕ = replicate (pad_len (length a.body)) 0 in
    let split : auth_bytes a ++ after ≡ word ++ (len ++ (a.body ++ (pad ++ after))) =
      simp append_assoc in
    let join : (((before ++ word) ++ len) ++ a.body) ++ pad ≡ before ++ auth_bytes a =
      simp append_assoc in
    rw (split, ← join)
      (auth_parts before after a.body pad a.flavor h.flavor h.body (length-replicate _ 0)
        (rw split at fits))

-- The fields of the header are within their words.
pub record SizedCall (c : CallHeader) : Type 0 where
  pub xid : c.xid < 2 ^ 32
  pub prog : c.prog < 2 ^ 32
  pub vers : c.vers < 2 ^ 32
  pub proc : c.proc < 2 ^ 32

header_parts :
    (c : CallHeader) (cred verf : Auth) (before args : List ℕ)
    → SizedCall c
    → Sized cred
    → Sized verf
    → let w₁ = to_be_bytes 4 c.xid in
      let w₂ = to_be_bytes 4 0 in
      let w₃ = to_be_bytes 4 2 in
      let w₄ = to_be_bytes 4 c.prog in
      let w₅ = to_be_bytes 4 c.vers in
      let w₆ = to_be_bytes 4 c.proc in
      let w₇ = auth_bytes cred in
      let w₈ = auth_bytes verf in
      Fits (at before (w₁ ++ (w₂ ++ (w₃ ++ (w₄ ++ (w₅ ++ (w₆ ++ (w₇ ++ (w₈ ++ args)))))))))
      → read_call_header
          (at before (w₁ ++ (w₂ ++ (w₃ ++ (w₄ ++ (w₅ ++ (w₆ ++ (w₇ ++ (w₈ ++ args)))))))))
        ≡ (call c, at ((((((((before ++ w₁) ++ w₂) ++ w₃) ++ w₄) ++ w₅) ++ w₆) ++ w₇) ++ w₈) args)
unfolding read_call_header read_call_body
header_parts c cred verf before args h hc hv fits =
    let w₁ = to_be_bytes 4 c.xid in
    let w₂ = to_be_bytes 4 0 in
    let w₃ = to_be_bytes 4 2 in
    let w₄ = to_be_bytes 4 c.prog in
    let w₅ = to_be_bytes 4 c.vers in
    let w₆ = to_be_bytes 4 c.proc in
    let w₇ = auth_bytes cred in
    let w₈ = auth_bytes verf in
    let b₁ = before ++ w₁ in
    let b₂ = b₁ ++ w₂ in
    let b₃ = b₂ ++ w₃ in
    let b₄ = b₃ ++ w₄ in
    let b₅ = b₄ ++ w₅ in
    let b₆ = b₅ ++ w₆ in
    let b₇ = b₆ ++ w₇ in
    let a₇ = w₈ ++ args in
    let a₆ = w₇ ++ a₇ in
    let a₅ = w₆ ++ a₆ in
    let a₄ = w₅ ++ a₅ in
    let a₃ = w₄ ++ a₄ in
    let a₂ = w₃ ++ a₃ in
    let a₁ = w₂ ++ a₂ in
    let f₁ = Fits-next before w₁ a₁ fits in
    let f₂ = Fits-next b₁ w₂ a₂ f₁ in
    let f₃ = Fits-next b₂ w₃ a₃ f₂ in
    let f₄ = Fits-next b₃ w₄ a₄ f₃ in
    let f₅ = Fits-next b₄ w₅ a₅ f₄ in
    let f₆ = Fits-next b₅ w₆ a₆ f₅ in
    let f₇ = Fits-next b₆ w₇ a₇ f₆ in
    rw (
      read_u32-at before a₁ c.xid h.xid fits,
      read_u32-at b₁ a₂ 0 (omega arith) f₁,
      read_u32-at b₂ a₃ 2 (omega arith) f₂,
      read_u32-at b₃ a₄ c.prog h.prog f₃,
      read_u32-at b₄ a₅ c.vers h.vers f₄,
      read_u32-at b₅ a₆ c.proc h.proc f₅,
      skip_opaque_auth-at cred b₆ a₇ hc f₆,
      skip_opaque_auth-at verf b₇ args hv f₇,
    )

-- The header of a call, with credentials and a verifier of any flavor within the limit, is read as the
-- call that a client made, and the reader then stands in front of the arguments, whatever they are.
pub read_call_header-call_bytes :
    (c : CallHeader) (cred verf : Auth) (args : List ℕ)
    → SizedCall c
    → Sized cred
    → Sized verf
    → length (call_bytes c cred verf ++ args) < 2 ^ 64
    → read_call_header (new_reader (call_bytes c cred verf ++ args))
      ≡ (call c, at (call_bytes c cred verf) args)
unfolding new_reader
read_call_header-call_bytes c cred verf args h hc hv fits =
    let w₁ = to_be_bytes 4 c.xid in
    let w₂ = to_be_bytes 4 0 in
    let w₃ = to_be_bytes 4 2 in
    let w₄ = to_be_bytes 4 c.prog in
    let w₅ = to_be_bytes 4 c.vers in
    let w₆ = to_be_bytes 4 c.proc in
    let w₇ = auth_bytes cred in
    let w₈ = auth_bytes verf in
    let split : call_bytes c cred verf ++ args
        ≡ w₁ ++ (w₂ ++ (w₃ ++ (w₄ ++ (w₅ ++ (w₆ ++ (w₇ ++ (w₈ ++ args))))))) =
      simp append_assoc in
    let join : (((((((w₁ ++ w₂) ++ w₃) ++ w₄) ++ w₅) ++ w₆) ++ w₇) ++ w₈) ≡ call_bytes c cred verf =
      simp append_assoc in
    ap (λ (b : List ℕ). read_call_header (at [] b)) split
    ∙ header_parts c cred verf [] args h hc hv (rw split at fits)
    ∙ ap (λ (b : List ℕ). (let x : HeaderOutcome × Reader = (call c, at b args) in x)) join
