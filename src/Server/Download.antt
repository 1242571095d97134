-- ===== src/Server/Download.antt =====
-- A client of src/backend/nfs/server.rs that reads a file by READ3 calls until the end-of-file flag.
use anymount.Prelude.{
  ℕ, zero, suc, ◌+◌, ◌-◌, ◌%◌, ◌^◌, ◌<◌, ◌≤◌, ◌≡◌, refl, ap, Bool, true, false, Bool-cases, inl,
  inr, Option, none, some, List, [], ◌∷◌, ◌++◌, length, take, drop, leb, arith, length-take,
  length-drop, take-append-drop, drop-drop,
}
use anymount.Fs.{ReadOnlyFs, Step, pure, ◌>>=◌}
use anymount.Fs.Contract.{slice, Stores}
use anymount.Xdr.{new_reader}
use anymount.Handle.{FileHandle3, encode}
use anymount.Handle.Laws.{IsSecret}
use anymount.Rpc.Header.{Auth, Sized}
use anymount.NfsProto.{min_of, rtmax}
use anymount.NfsProto.Content.{read_ino-Stores}
use anymount.Server.Defs.{Config, handle_message}
use anymount.Server.ReadCall.{read_call, ctx_of, handle_message-read_call}
use anymount.Server.ReadResult.{read3res, read3res-build_reply}

-- What the reply says, if there is one that the client can read.
abbrev pub understood : ℕ → Option (Option (List ℕ)) → Option (List ℕ × Bool)
understood xid none = none
understood xid (some none) = none
understood xid (some (some bytes)) = (read3res xid (new_reader bytes)).0

abbrev pub ahead : List ℕ → Option (List ℕ) → Option (List ℕ)
ahead front none = none
ahead front (some rest) = some (front ++ rest)

-- The client, with the handle of the file and credentials that it sends along; a call has the number of calls to come as its transaction id.
module _ (F : ReadOnlyFs) (fuel : ℕ) (handle : FileHandle3) (config : Config) (cred verf : Auth)
    (fh : List ℕ) (count : ℕ) where
  unfoldable pub download : ℕ → ℕ → Step F.State (Option (List ℕ))
  download zero offset = pure none
  download (suc k) offset = do
    reply ← handle_message F fuel handle config (read_call (k % 2 ^ 32) cred verf fh offset count)
    (elim (understood (k % 2 ^ 32) reply) [
      | none ↦ pure none
      | some answer ↦ elim answer.1 [
        | true ↦ pure (some answer.0)
        | false ↦ do rest ← download k (offset + length answer.0); pure (ahead answer.0 rest)
      ]
    ])

take_all : (n : ℕ) (xs : List ℕ) → length xs ≤ length (take n xs) → take n xs ≡ xs
take_all zero [] h = refl
take_all zero (x ∷ xs) h = absurd (omega arith)
take_all (suc n) [] h = refl
take_all (suc n) (x ∷ xs) h = ap (◌∷◌ x) (take_all n xs (omega arith))

-- The last piece, and one that is followed by others.
last_slice :
    (offset n : ℕ) (content : List ℕ)
    → leb (length content) (offset + length (slice offset n content)) ≡ true
    → slice offset n content ≡ drop offset content
last_slice offset n content h =
    take_all n (drop offset content) (ground (arith, h, length-drop offset content))

more_slices :
    (offset n : ℕ) (content : List ℕ)
    → leb (length content) (offset + length (slice offset n content)) ≡ false
    → (offset + n < length content) × (length (slice offset n content) ≡ n)
more_slices offset n content h =
    let len = length-take n (drop offset content) in
    let left = length-drop offset content in
    (ground (arith, h, len, left), ground (arith, h, len, left))

join_slices :
    (offset n : ℕ) (content : List ℕ)
    → slice offset n content ++ drop (offset + n) content ≡ drop offset content
join_slices offset n content =
    rw (← drop-drop offset n content) (take-append-drop n (drop offset content))

module _ (F : ReadOnlyFs) (fuel : ℕ) (handle : FileHandle3) (config : Config) (cred verf : Auth)
    (ino count : ℕ) (Inv : F.State → Type 0) (content : List ℕ) (law : Stores F Inv ino content)
    (secret : IsSecret handle.secret) (sized_cred : Sized cred) (sized_verf : Sized verf)
    (ino_fits : ino < 2 ^ 64) (asks : 0 < count) (count_fits : count < 2 ^ 32)
    (content_fits : length content < 2 ^ 63) where
  abbrev piece : ℕ → List ℕ
  piece offset = slice offset (min_of count rtmax) content

  one_read :
      (xid offset : ℕ) (s : F.State)
      → xid < 2 ^ 32
      → offset ≤ length content
      → Inv s
      → let out =
          handle_message F fuel handle config
            (read_call xid cred verf (encode handle ino) offset count)
            s in
        (understood xid out.0
          ≡ some (piece offset, leb (length content) (offset + length (piece offset))))
        × Inv out.1
  one_read xid offset s hx ho inv =
      let n = min_of count rtmax in
      let call =
        handle_message-read_call F fuel handle config xid cred verf ino offset count s secret hx
          sized_cred sized_verf ino_fits (omega arith) count_fits in
      let (a, answer, kept) =
        read_ino-Stores F (ctx_of handle) Inv ino content law offset n s inv (omega arith) in
      let small : length (piece offset) < 2 ^ 32 =
        ground (arith, length-take n (drop offset content)) in
      rw call (
        rw answer (
            read3res-build_reply (ctx_of handle) a xid offset (length content) (piece offset) hx
              small),
        kept,
      )

  downloaded :
      (k offset : ℕ) (s : F.State)
      → offset ≤ length content
      → length content - offset < k
      → Inv s
      → (download F fuel handle config cred verf (encode handle ino) count k offset s).0
        ≡ some (drop offset content)
  unfolding download
  downloaded zero offset s ho hk inv = absurd (omega arith)
  downloaded (suc k) offset s ho hk inv =
      let n = min_of count rtmax in
      let (answer, kept) = one_read (k % 2 ^ 32) offset s (omega arith) ho inv in
      let some_asked : 0 < n = ground arith in
      elim (Bool-cases (leb (length content) (offset + length (piece offset)))) [
        | inl ends ↦
            rw (◌>>=◌, answer, ends)
              (ap (λ (x : List ℕ). some x) (last_slice offset n content ends))
        | inr goes_on ↦
            (let (inside, full) = more_slices offset n content goes_on in
              let rest = downloaded k (offset + n) _ (omega arith) (omega arith) kept in
              rw (◌>>=◌, answer, goes_on, full, rest)
                (ap (λ (x : List ℕ). some x) (join_slices offset n content)))
      ]

-- A client that reads a file of the mount by the bytes of READ3 calls, from the start until a reply
-- has the end-of-file flag, is given the content of the file, however much it asks for at a time: every
-- call is answered, and there are no more calls than bytes and one. The file is one whose content does
-- not change, of less than 2^63 bytes, and a call asks for at least a byte.
pub download-Stores :
    (F : ReadOnlyFs) (fuel : ℕ) (handle : FileHandle3) (config : Config) (cred verf : Auth)
    (ino count : ℕ) (Inv : F.State → Type 0) (content : List ℕ) (s : F.State)
    → Stores F Inv ino content
    → IsSecret handle.secret
    → Sized cred
    → Sized verf
    → ino < 2 ^ 64
    → 0 < count
    → count < 2 ^ 32
    → length content < 2 ^ 63
    → Inv s
    → (download F fuel handle config cred verf (encode handle ino) count (length content + 1) 0 s).0
      ≡ some content
download-Stores F fuel handle config cred verf ino count Inv content s law hs hc hv hi hp hn hl
      inv =
    downloaded F fuel handle config cred verf ino count Inv content law hs hc hv hi hp hn hl
      (length content + 1) 0 s (omega arith) (omega arith) inv
