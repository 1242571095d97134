-- ===== src/Cfapi/Steps.antt =====
-- One round of the transfer loop of src/backend/cfapi.rs, a lemma for each branch, and the i64
-- arithmetic below 2^63.
use anymount.Prelude.{ℕ, zero, suc, ◌+◌, ◌-◌, ◌%◌, ◌^◌, ◌≤◌, ◌<◌, ◌≡◌, min, true, false, some}
use anymount.Prelude.{List, [], ◌∷◌, ◌++◌, ok, err, take, drop, arith, ltb}
use anymount.Types.{FileHandle}
use anymount.Error.{FsError, io, Ntstatus, to_ntstatus}
use anymount.Stream.{unexpected_eof_error}
use anymount.Fs.{ReadOnlyFs, ◌>>=◌, fill, read_into}
use anymount.Cfapi.Defs.{Operation, transfer_data, slt}
use anymount.Cfapi.Chunks.{add64, sub64, want_of, fail_rest, stream_loop}

pub slt-eq : (a b : ℕ) → a < 2 ^ 63 → b < 2 ^ 63 → slt a b ≡ ltb a b
unfolding slt
slt-eq a b ha hb =
    let ea : (a + 2 ^ 63) % 2 ^ 64 ≡ a + 2 ^ 63 = omega arith in
    let eb : (b + 2 ^ 63) % 2 ^ 64 ≡ b + 2 ^ 63 = omega arith in rw (ea, eb) (ground arith)

pub add64-eq : (a b : ℕ) → a + b < 2 ^ 64 → add64 a b ≡ a + b
add64-eq a b h = omega arith

pub sub64-eq : (a b : ℕ) → b ≤ a → a < 2 ^ 64 → sub64 a b ≡ a - b
sub64-eq a b h k = omega arith

-- What a round reads, and the slice afterwards.
abbrev pub slice_of : ℕ → ℕ → List ℕ → List ℕ
slice_of len sent buf = take (want_of len sent buf) buf

module _ (F : ReadOnlyFs) (nt : Ntstatus) (fuel : ℕ) (fh : FileHandle) (offset len sent : ℕ)
    (buf : List ℕ) (s : F.State) (ops : List Operation) where
  pub loop_done :
      slt sent len ≡ false
      → stream_loop F nt (suc fuel) fh offset len sent buf (s, ops) ≡ (some (ok tt), (s, ops))
  unfolding stream_loop
  loop_done h = rw (h, stream_loop)

  pub loop_err :
      (e : FsError)
      → slt sent len ≡ true
      → (F.read_at fh (add64 offset sent) (slice_of len sent buf) s).0.0 ≡ err e
      → stream_loop F nt (suc fuel) fh offset len sent buf (s, ops) ≡ (
        some (err e),
        (
          (F.read_at fh (add64 offset sent) (slice_of len sent buf) s).1,
          ops ++ (transfer_data [] (add64 offset sent) (sub64 len sent) (to_ntstatus nt e) ∷ []),
        ),
      )
  unfolding stream_loop read_into fail_rest
  loop_err e h r = rw (h, stream_loop, ◌>>=◌, r)

  pub loop_eof :
      slt sent len ≡ true
      → (F.read_at fh (add64 offset sent) (slice_of len sent buf) s).0.0 ≡ ok zero
      → stream_loop F nt (suc fuel) fh offset len sent buf (s, ops) ≡ (
        some (err (io unexpected_eof_error)),
        (
          (F.read_at fh (add64 offset sent) (slice_of len sent buf) s).1,
          ops
              ++ (transfer_data []
                    (add64 offset sent)
                    (sub64 len sent)
                    (to_ntstatus nt (io unexpected_eof_error))
                  ∷ []),
        ),
      )
  unfolding stream_loop read_into fail_rest
  loop_eof h r = rw (h, stream_loop, ◌>>=◌, r)

  pub loop_chunk :
      (k : ℕ)
      → slt sent len ≡ true
      → (F.read_at fh (add64 offset sent) (slice_of len sent buf) s).0.0 ≡ ok (suc k)
      → let out = F.read_at fh (add64 offset sent) (slice_of len sent buf) s in
        let part = fill out.0.1 (slice_of len sent buf) in
        let n = min (suc k) (want_of len sent buf) in
        stream_loop F nt (suc fuel) fh offset len sent buf (s, ops)
        ≡ stream_loop F nt fuel fh offset len
            (add64 sent n)
            (part ++ drop (want_of len sent buf) buf)
            (out.1, ops ++ (transfer_data (take n part) (add64 offset sent) n 0 ∷ []))
  unfolding stream_loop read_into
  loop_chunk k h r = rw (h, stream_loop, ◌>>=◌, r)
