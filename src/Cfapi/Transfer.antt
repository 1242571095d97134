-- ===== src/Cfapi/Transfer.antt =====
-- What the platform is handed for one FETCH_DATA of src/backend/cfapi.rs, whatever the filesystem does.
use anymount.Prelude.{
  ℕ, zero, suc, ◌+◌, ◌-◌, ◌^◌, ◌≤◌, ◌<◌, ◌≡◌, refl, sym, ◌∙◌, min, true, Option, none, some, ◌⊎◌,
  inl, inr,
}
use anymount.Prelude.{
  List, [], ◌∷◌, ◌++◌, ok, err, length, take, drop, replicate, arith, ltb, append_assoc, append-nil,
  length-append, length-take, length-drop, length-replicate, Bool-cases, Result-cases,
}
use anymount.Types.{Ino, FileHandle}
use anymount.Error.{
  FsError, io, invalid_argument, not_found, permission_denied, unsupported, no_xattr, context_of,
  Ntstatus, to_ntstatus,
}
use anymount.Stream.{unexpected_eof_error}
use anymount.Fs.{ReadOnlyFs, FsResult, ◌>>=◌, fill, length-fill}
use anymount.Cfapi.Defs.{
  Operation, transfer_data, transfer_placeholders, transfer_chunk, slt, is_positive, decode_ino,
}
use anymount.Cfapi.Chunks.{
  add64, sub64, want_of, stream_loop, stream_chunks, stream_opened, stream_fetch, fetch_file,
  handle_fetch_data,
}
use anymount.Cfapi.Steps.{slt-eq, slice_of, loop_done, loop_err, loop_eof, loop_chunk}

-- None of the `STATUS_*` constants is `STATUS_SUCCESS`.
pub record Fails (nt : Ntstatus) : Type 0 where
  pub access_denied : 0 < nt.access_denied
  pub cloud_file_unsuccessful : 0 < nt.cloud_file_unsuccessful
  pub invalid_parameter : 0 < nt.invalid_parameter
  pub not_supported : 0 < nt.not_supported
  pub object_name_not_found : 0 < nt.object_name_not_found

to_ntstatus-Fails : (nt : Ntstatus) → Fails nt → (e : FsError) → 0 < to_ntstatus nt e
unfolding to_ntstatus
to_ntstatus-Fails nt h not_found = h.object_name_not_found
to_ntstatus-Fails nt h permission_denied = h.access_denied
to_ntstatus-Fails nt h invalid_argument = h.invalid_parameter
to_ntstatus-Fails nt h (unsupported what) = h.not_supported
to_ntstatus-Fails nt h no_xattr = h.not_supported
to_ntstatus-Fails nt h (context_of e msg) = to_ntstatus-Fails nt h e
to_ntstatus-Fails nt h e = h.cloud_file_unsuccessful

-- The status of an error, which is not that of success.
abbrev IsFailure : Ntstatus → ℕ → Type 0
IsFailure nt st = (0 < st) × ((e : FsError) × (st ≡ to_ntstatus nt e))

-- The operations cover the range from `a` to `b` in order and without a gap or an overlap: each
-- carries its bytes with success, but the last may instead carry none and fail all that is left with
-- the status of an error.
abbrev pub Tiles : Ntstatus → ℕ → ℕ → List Operation → Type 0
Tiles nt a b [] = a ≡ b
Tiles nt a b (transfer_placeholders infos st ∷ ops) = ⊥
Tiles nt a b (transfer_data bytes off len st ∷ ops) =
    (off ≡ a)
    × (((st ≡ 0) × (length bytes ≡ len)) ⊎ ((bytes ≡ []) × (ops ≡ []) × IsFailure nt st))
    × Tiles nt (a + len) b ops

read_cases :
    (n : FsResult ℕ) → (n ≡ ok zero) ⊎ ((e : FsError) × (n ≡ err e)) ⊎ ((k : ℕ) × (n ≡ ok (suc k)))
read_cases (err e) = inr (inl (e, refl))
read_cases (ok zero) = inl refl
read_cases (ok (suc k)) = inr (inr (k, refl))

-- The loop ends, and what it hands over covers what was left.
abbrev pub Covers :
    {S : Type 0}
    → Ntstatus
    → ℕ
    → ℕ
    → List Operation
    → Option (FsResult (Unit {0})) × (S × List Operation)
    → Type 0
Covers nt a b ops out =
    (r : FsResult (Unit {0})) × (new : List Operation) × (out.0 ≡ some r)
    × (out.1.1 ≡ ops ++ new)
    × Tiles nt a b new

module _ (F : ReadOnlyFs) (nt : Ntstatus) (fh : FileHandle) (offset len : ℕ)
    (range : offset + len < 2 ^ 63) (fails : Fails nt) where
  failed_Covers :
      (sent : ℕ) (e : FsError) (s : F.State) (ops : List Operation)
      → sent ≤ len
      → Covers {S = F.State} nt (offset + sent) (offset + len) ops (
        some (err e),
        (s, ops ++ (transfer_data [] (add64 offset sent) (sub64 len sent) (to_ntstatus nt e) ∷ [])),
      )
  failed_Covers sent e s ops h = (
    err e,
    _,
    refl,
    refl,
    (omega arith, inr (refl, refl, (to_ntstatus-Fails nt fails e, (e, refl))), omega arith),
  )

  loop-Covers :
      (fuel sent : ℕ) (buf : List ℕ) (s : F.State) (ops : List Operation)
      → len - sent < fuel
      → sent ≤ len
      → 0 < length buf
      → Covers nt
          (offset + sent)
          (offset + len)
          ops
          (stream_loop F nt fuel fh offset len sent buf (s, ops))
  loop-Covers zero sent buf s ops f h b = absurd (omega arith)
  loop-Covers (suc fuel) sent buf s ops f h b =
      let below = slt-eq sent len (omega arith) (omega arith) in
      let out = F.read_at fh (add64 offset sent) (slice_of len sent buf) s in
      elim (Bool-cases (slt sent len)) [
        | inr done ↦
            rw (loop_done F nt fuel fh offset len sent buf s ops done)
              (ok tt, [], refl, sym (append-nil ops), ground (arith, below))
        | inl more ↦ elim (read_cases out.0.0) [
          | inl z ↦
              rw (loop_eof F nt fuel fh offset len sent buf s ops more z)
                (failed_Covers sent (io unexpected_eof_error) out.1 ops h)
          | inr (inl (e, z)) ↦
              rw (loop_err F nt fuel fh offset len sent buf s ops e more z)
                (failed_Covers sent e out.1 ops h)
          | inr (inr (k, z)) ↦
              (let want = want_of len sent buf in
                let n = min (suc k) want in
                let part = fill out.0.1 (slice_of len sent buf) in
                let now : List Operation =
                  transfer_data (take n part) (add64 offset sent) n 0 ∷ [] in
                let next = part ++ drop want buf in
                let gap : sent < len = ground (arith, below) in
                let psize : length part ≡ want =
                  length-fill out.0.1 (slice_of len sent buf)
                  ∙ omega (arith, length-take want buf) in
                let bsize : length next ≡ length buf =
                  omega (arith, psize, length-append part (drop want buf), length-drop want buf) in
                let step : add64 sent n ≡ sent + n = omega arith in
                let ih =
                  loop-Covers fuel (add64 sent n) next out.1 (ops ++ now) (omega (arith, step))
                    (omega (arith, step)) (omega (arith, bsize)) in
                let same : offset + add64 sent n ≡ (offset + sent) + n = omega (arith, step) in
                rw (loop_chunk F nt fuel fh offset len sent buf s ops k more z) (
                  ih.0,
                  now ++ ih.1,
                  ih.2,
                  ih.3 ∙ append_assoc ops now ih.1,
                  (
                    omega arith,
                    inl (refl, omega (arith, length-take n part, psize)),
                    rw same at ih.4,
                  ),
                ))
        ]
      ]

stream_chunks-Covers :
    (F : ReadOnlyFs) (nt : Ntstatus) (fuel : ℕ) (fh : FileHandle) (offset len : ℕ) (s : F.State)
    (ops : List Operation)
    → offset + len < 2 ^ 63
    → Fails nt
    → len < fuel
    → Covers nt offset (offset + len) ops (stream_chunks F nt fuel fh offset len (s, ops))
unfolding stream_chunks is_positive
stream_chunks-Covers F nt fuel fh offset len s ops range fails f = elim (Bool-cases (slt 0 len)) [
  | inl more ↦
      rw (more, stream_chunks)
        (let below : ltb 0 len ≡ true = sym (slt-eq 0 len (omega arith) (omega arith)) ∙ more in
          let positive : 0 < len = ground (arith, below) in
          let start : offset + 0 ≡ offset = omega arith in
          rw start at (
            loop-Covers F nt fh offset len range fails fuel 0 (replicate (min transfer_chunk len) 0)
              s ops (omega arith) (omega arith)
              (omega (arith, positive, length-replicate {A = ℕ} (min transfer_chunk len) 0))))
  | inr none_left ↦
      rw (none_left, stream_chunks)
        (
          ok tt,
          transfer_data [] offset 0 0 ∷ [],
          refl,
          refl,
          (refl, inl (refl, refl), ground (arith, slt-eq 0 len (omega arith) (omega arith))),
        )
]

-- What the callback has handed over when it returns.
abbrev pub Answers :
    {S : Type 0}
    → Ntstatus
    → ℕ
    → ℕ
    → List Operation
    → Option (Unit {0}) × (S × List Operation)
    → Type 0
Answers nt a b ops out =
    (new : List Operation) × (out.0 ≡ some tt) × (out.1.1 ≡ ops ++ new) × Tiles nt a b new

-- The identity is that of a file that cannot be opened, and nothing more is handed over.
abbrev pub Silent :
    (F : ReadOnlyFs)
    → Option Ino
    → F.State
    → List Operation
    → Option (Unit {0}) × (F.State × List Operation)
    → Type 0
Silent F ino s ops out =
    (i : Ino) × (e : FsError) × (ino ≡ some i)
    × ((F.open_file i s).0 ≡ err e)
    × (out ≡ (some tt, ((F.open_file i s).1, ops)))

-- No file, or one that can be opened.
abbrev pub Openable : (F : ReadOnlyFs) → Option Ino → F.State → Type 0
Openable F ino s = (i : Ino) → ino ≡ some i → (fh : FileHandle) × ((F.open_file i s).0 ≡ ok fh)

no_file : (i : Ino) → none ≡ some i → ⊥
no_file i h = cc

same_file :
    (F : ReadOnlyFs) (ino i : Ino) (s : F.State) (fh : FileHandle)
    → some ino ≡ some i
    → (F.open_file ino s).0 ≡ ok fh
    → (F.open_file i s).0 ≡ ok fh
same_file F ino i s fh e h = let same : ino ≡ i = cc in rw (← same) h

fetch_file-Answers :
    (F : ReadOnlyFs) (nt : Ntstatus) (fuel : ℕ) (ino : Option Ino) (offset len : ℕ) (s : F.State)
    (ops : List Operation)
    → offset + len < 2 ^ 63
    → Fails nt
    → len < fuel
    → let out = fetch_file F nt fuel ino offset len (s, ops) in
      Silent F ino s ops out ⊎ (Openable F ino s × Answers nt offset (offset + len) ops out)
unfolding fetch_file
fetch_file-Answers F nt fuel none offset len s ops range fails f = inr (
  λ i h. absurd (no_file i h),
  (
    _,
    refl,
    refl,
    (
      refl,
      inr (refl, refl, (to_ntstatus-Fails nt fails invalid_argument, (invalid_argument, refl))),
      refl,
    ),
  ),
)
fetch_file-Answers F nt fuel (some ino) offset len s ops range fails f =
    elim (Result-cases (F.open_file ino s).0) [
      | inl (fh, h) ↦
          (let (r, new, e, l, t) =
              stream_chunks-Covers F nt fuel fh offset len (F.open_file ino s).1 ops range fails
                f in
            unfold stream_fetch stream_opened in
            inr (
              λ i q. (fh, same_file F ino i s fh q h),
              (new, rw (◌>>=◌, h, e), rw (◌>>=◌, h) l, t),
            ))
      | inr (e, h) ↦ unfold stream_fetch stream_opened in inl (ino, e, refl, h, rw (◌>>=◌, h) refl)
    ]

-- For a range that ends below 2^63, given fuel for a round to each byte and one more, and status
-- constants that are not that of success, the answer to the request ends. Either the identity is
-- that of a file that cannot be opened, and the platform is handed nothing, neither data nor a
-- failure; or it is not, and what the platform is handed covers the range exactly, from its start
-- to its end: each operation carries its bytes with success, but the last may instead fail all that
-- is left, with the status of an error. So the platform hears of every byte of an opened file,
-- however short the reads of the filesystem are and whenever they fail.
pub handle_fetch_data-Answers :
    (F : ReadOnlyFs) (nt : Ntstatus) (fuel : ℕ) (identity : List ℕ) (offset len : ℕ) (s : F.State)
    (ops : List Operation)
    → offset + len < 2 ^ 63
    → Fails nt
    → len < fuel
    → let out = handle_fetch_data F nt fuel identity offset len (s, ops) in
      Silent F (decode_ino identity) s ops out
      ⊎ (Openable F (decode_ino identity) s × Answers nt offset (offset + len) ops out)
unfolding handle_fetch_data
handle_fetch_data-Answers F nt fuel identity offset len s ops range fails f =
    fetch_file-Answers F nt fuel (decode_ino identity) offset len s ops range fails f
