-- ===== src/Rpc/Timeout.antt =====
-- What `read_message` does with a length that is too large, and with a read that fails midway.
use anymount.Prelude.{ℕ, zero, suc, ◌+◌, ◌-◌, ◌≤◌, ◌<◌, ◌≡◌, refl, ap, ◌∙◌, Option, none, some}
use anymount.Prelude.{
  List, [], ◌∷◌, ◌++◌, Result, ok, err, arith, length, take, ltb, leb, false, ◌==◌,
}
use anymount.Prelude.{length-append, length-take, bit_and, Bool-cases, inl, inr, from_be_bytes}
use anymount.Error.{IoError}
use anymount.Stream.{Stream, chunk, failed, read_exact}
use anymount.Rpc.Defs.{read_exact_or_eof, some_body, read_body, after_header, read_message}
use anymount.Rpc.Chunks.{bytes_of, IsClean, length-bytes_of, header_short}
use anymount.Rpc.Defs.{max_fragment_len, fragment_len_mask, last_fragment_bit}

-- `read_exact` succeeds only with the buffer full.
read_exact_fills :
    (want : ℕ) (got : List ℕ) (s : Stream) (bytes : List ℕ) (s' : Stream)
    → read_exact want got s ≡ (ok bytes, s')
    → length bytes ≡ length got + want
unfolding read_exact
read_exact_fills zero got s bytes s' h = ground (arith, ap (λ (b : List ℕ). length b))
read_exact_fills (suc want) got [] bytes s' h = cc
read_exact_fills (suc want) got (failed e ∷ s) bytes s' h =
    ground (arith, read_exact_fills (suc want) got s bytes s')
read_exact_fills (suc want) got (chunk b bs ∷ s) bytes s' h = ground (
  arith,
  read_exact_fills (suc want - length (b ∷ bs)) (got ++ (b ∷ bs)) s bytes s',
  length-append got (b ∷ bs),
  length-append got (take (suc want) (b ∷ bs)),
  length-take (suc want) (b ∷ bs),
)

some_body-length :
    (n : ℕ) (x : Result (List ℕ) IoError × Stream)
    → ((bytes : List ℕ) (s' : Stream) → x ≡ (ok bytes, s') → length bytes ≡ n)
    → (body : List ℕ) (s' : Stream) → some_body x ≡ (ok (some body), s')
    → length body ≡ n
unfolding some_body
some_body-length n (ok bytes, s) fills body s' h =
    let e : body ≡ bytes = ground arith in ap (λ (b : List ℕ). length b) e ∙ fills bytes s refl
some_body-length n (err e, s) fills body s' h = cc

read_body-length :
    (hdr : ℕ) (s s' : Stream) (body : List ℕ)
    → read_body hdr s ≡ (ok (some body), s')
    → length body ≤ max_fragment_len
unfolding read_body
read_body-length hdr s s' body h = elim (Bool-cases (bit_and hdr last_fragment_bit == 0)) [
  | inl z ↦ ground arith
  | inr z ↦ elim (Bool-cases (ltb max_fragment_len (bit_and hdr fragment_len_mask))) [
    | inl big ↦ ground arith
    | inr small ↦ ground (
      arith,
      some_body-length (bit_and hdr fragment_len_mask)
          (read_exact (bit_and hdr fragment_len_mask) [] s)
          (λ bytes t r.
            ground (arith, read_exact_fills (bit_and hdr fragment_len_mask) [] s bytes t r))
          body s',
    )
  ]
]

after_header-length :
    (x : Result (Option (List ℕ)) IoError × Stream) (s' : Stream) (body : List ℕ)
    → after_header x ≡ (ok (some body), s')
    → length body ≤ max_fragment_len
unfolding after_header
after_header-length (err e, s) s' body h = cc
after_header-length (ok none, s) s' body h = ground arith
after_header-length (ok (some bytes), s) s' body h =
    read_body-length (from_be_bytes bytes) s s' body h

-- A message that `read_message` returns has at most `MAX_FRAGMENT_LEN` bytes, whatever the socket
-- delivers and whatever length the header word names.
pub read_message_limit :
    (s s' : Stream) (body : List ℕ)
    → read_message s ≡ (ok (some body), s')
    → length body ≤ max_fragment_len
unfolding read_message
read_message_limit s s' body h = after_header-length (read_exact_or_eof 4 [] s) s' body h

failed_after :
    (want : ℕ) (got : List ℕ) (arrived : Stream) (e : IoError) (s : Stream)
    → IsClean arrived
    → length (bytes_of arrived) < want
    → read_exact_or_eof want got (arrived ++ (failed e ∷ s)) ≡ (err e, s)
failed_after zero got arrived e s c h = absurd (omega arith)
failed_after (suc want) got [] e s c h = unfold read_exact_or_eof in refl
failed_after (suc want) got (failed x ∷ arrived) e s c h = absurd c
failed_after (suc want) got (chunk b bs ∷ arrived) e s c h =
    let size = length-bytes_of b bs arrived in
    let short : leb (suc want) (length (b ∷ bs)) ≡ false = ground (arith, size, h) in
    header_short want got b bs (arrived ++ (failed e ∷ s)) short
    ∙ failed_after (suc want - length (b ∷ bs)) (got ++ (b ∷ bs)) arrived e s c
        (omega (arith, size, h))

-- A read that fails before the four bytes of the header word are there loses those that had arrived,
-- in whatever chunks: the error is returned, and the next message is read from behind them.
pub read_message_drops :
    (arrived : Stream) (e : IoError) (s : Stream)
    → IsClean arrived
    → length (bytes_of arrived) < 4
    → read_message (arrived ++ (failed e ∷ s)) ≡ (err e, s)
unfolding read_message
read_message_drops arrived e s c h =
    ap after_header (failed_after 4 [] arrived e s c h) ∙ unfold after_header in refl
