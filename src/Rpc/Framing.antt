-- ===== src/Rpc/Framing.antt =====
-- Record marking in src/backend/nfs/rpc.rs: `write_message` against `read_message`.
use mathlib.Core.Path.{subst}
use anymount.Prelude.{ℕ, ◌+◌, ◌*◌, ◌%◌, ◌^◌, ◌≤◌, ◌<◌, ◌≡◌, refl, sym, ap, ◌∙◌}
use anymount.Prelude.{false, Option, some, List, [], ◌++◌, Result, ok, arith}
use anymount.Prelude.{length, ltb, append_assoc}
use anymount.Prelude.{length-append}
use anymount.Prelude.{take-append_length, drop-append_length}
use anymount.Prelude.{
  bit_and, bit_or, to_be_bytes, from_be_bytes, length-to_be_bytes, from_be_bytes-to_be_bytes,
}
use anymount.Prelude.Bits.{bit_and_low, bit_and_high, bit_or_join}
use anymount.Error.{IoError}
use anymount.Stream.{Stream, read_exact, Output, write_all}
use anymount.Rpc.Defs.{
  read_exact_or_eof, some_body, read_body, after_header, read_message, write_message,
}
use anymount.Rpc.Defs.{max_fragment_len, last_fragment_bit, fragment_len_mask}
use anymount.Rpc.Chunks.{bytes_of, IsClean, header_reads, body_reads}

-- The header word of a whole message, taken apart as `read_message` does.
header_word : (n : ℕ) → n < 2 ^ 31 → bit_or last_fragment_bit n ≡ 2 ^ 31 + n
header_word n h = omega (arith, bit_or_join 31 1 n h)

header_bits :
    (n : ℕ)
    → n < 2 ^ 31
    → (bit_and (2 ^ 31 + n) last_fragment_bit ≡ 2 ^ 31)
      × (bit_and (2 ^ 31 + n) fragment_len_mask ≡ n)
header_bits n h =
    let e : 1 * 2 ^ 31 + n ≡ 2 ^ 31 + n = omega arith in
    (rw e at (bit_and_high 31 1 n 1 h), rw e at (bit_and_low 31 1 n h))

read_body_whole :
    (n : ℕ) (s : Stream)
    → n ≤ max_fragment_len
    → read_body (2 ^ 31 + n) s ≡ some_body (read_exact n [] s)
unfolding read_body
read_body_whole n s h =
    let b = header_bits n (omega arith) in
    let small : ltb max_fragment_len n ≡ false = ground arith in rw (b.0, b.1, small)

-- What `write_message` sends when no write fails.
write_message_sends :
    (body sent : List ℕ)
    → write_message body (record { sent = sent; answers = [] }) ≡ (
      ok tt,
      record {
        sent = (sent ++ to_be_bytes 4 (bit_or last_fragment_bit (length body % 2 ^ 32))) ++ body;
        answers = [];
      },
    )
unfolding write_message write_all
write_message_sends body sent = refl

after_word :
    (word : List ℕ) (s : Stream)
    → after_header (ok (some word), s) ≡ read_body (from_be_bytes word) s
unfolding after_header
after_word word s = refl

body_found : (body : List ℕ) (s : Stream) → some_body (ok body, s) ≡ (ok (some body), s)
unfolding some_body
body_found body s = refl

read_framed :
    (word body after : List ℕ) (s : Stream)
    → length word ≡ 4
    → from_be_bytes word ≡ 2 ^ 31 + length body
    → length body ≤ max_fragment_len
    → IsClean s
    → bytes_of s ≡ word ++ (body ++ after)
    → ((read_message s).0 ≡ ok (some body))
      × (bytes_of (read_message s).1 ≡ after)
      × IsClean (read_message s).1
unfolding read_message
read_framed word body after s hw hv h c e =
    let behind : List ℕ = body ++ after in
    let size : length (bytes_of s) ≡ 4 + (length body + length after) =
      rw e (omega (arith, length-append word behind, length-append body after)) in
    let (out, r, (p, q, c')) = header_reads 4 [] s c (omega arith) in
    let word_is : out.0 ≡ word = rw (p, e, ← hw) (take-append_length word behind) in
    let left : bytes_of out.1 ≡ behind = rw (q, e, ← hw) (drop-append_length word behind) in
    let (out2, r2, (p2, q2, c2)) =
      body_reads (length body) [] out.1 c' (rw left (omega (arith, length-append body after))) in
    let body_is : out2.0 ≡ body = rw (p2, left) (take-append_length body after) in
    let rest_is : bytes_of out2.1 ≡ after = rw (q2, left) (drop-append_length body after) in
    let run : after_header (read_exact_or_eof 4 [] s) ≡ (ok (some body), out2.1) =
      ap after_header r
      ∙ ap (λ (x : List ℕ). after_header (ok (some x), out.1)) word_is
      ∙ after_word word out.1
      ∙ ap (λ (x : ℕ). read_body x out.1) hv
      ∙ read_body_whole (length body) out.1 h
      ∙ ap some_body r2
      ∙ ap (λ (x : List ℕ). some_body (ok x, out2.1)) body_is
      ∙ body_found body out2.1 in
    (
      ap (λ (x : Result (Option (List ℕ)) IoError × Stream). x.0) run,
      ap (λ (x : Result (Option (List ℕ)) IoError × Stream). bytes_of x.1) run ∙ rest_is,
      subst (λ (x : Result (Option (List ℕ)) IoError × Stream). IsClean x.1) (sym run) c2,
    )

-- The bytes of one message.
abbrev pub sent_of : List ℕ → List ℕ
sent_of body = (write_message body (record { sent = []; answers = [] })).1.sent

pub read_message-sent :
    (body after : List ℕ) (s : Stream)
    → length body ≤ max_fragment_len
    → IsClean s
    → bytes_of s ≡ sent_of body ++ after
    → ((read_message s).0 ≡ ok (some body))
      × (bytes_of (read_message s).1 ≡ after)
      × IsClean (read_message s).1
read_message-sent body after s h c e =
    let n : ℕ = length body in
    let hdr : ℕ = bit_or last_fragment_bit (n % 2 ^ 32) in
    let word : List ℕ = to_be_bytes 4 hdr in
    let small : n % 2 ^ 32 ≡ n = omega arith in
    let hdr_is : hdr ≡ 2 ^ 31 + n = rw small (header_word n (omega arith)) in
    read_framed word body after s (length-to_be_bytes 4 hdr)
      (from_be_bytes-to_be_bytes 4 hdr (omega arith) ∙ hdr_is) h c
      (e
        ∙ ap (λ (x : List ℕ). x ++ after)
            (ap (λ (x : Result (Unit {0}) IoError × Output). x.1.sent)
              (write_message_sends body []))
        ∙ append_assoc word body after)

-- What it sends behind what was sent before.
pub write_message-sent :
    (body sent : List ℕ)
    → write_message body (record { sent = sent; answers = [] })
      ≡ (ok tt, record { sent = sent ++ sent_of body; answers = [] })
write_message-sent body sent =
    let word : List ℕ = to_be_bytes 4 (bit_or last_fragment_bit (length body % 2 ^ 32)) in
    let alone : sent_of body ≡ word ++ body =
      ap (λ (x : Result (Unit {0}) IoError × Output). x.1.sent) (write_message_sends body []) in
    rw (write_message_sends body sent, alone, append_assoc sent word body)
