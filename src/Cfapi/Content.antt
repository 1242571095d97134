-- ===== src/Cfapi/Content.antt =====
-- What the platform is handed of a file that the filesystem serves: the transfer of
-- src/backend/cfapi.rs on a file that keeps the contract of `read_at`.
use anymount.Prelude.{
  ℕ, zero, suc, ◌+◌, ◌-◌, ◌^◌, ◌≤◌, ◌<◌, ◌≡◌, refl, ap, sym, ◌∙◌, min, true, Option, some, ◌⊎◌, inl,
  inr,
}
use anymount.Prelude.{
  List, [], ◌∷◌, ◌++◌, ok, length, take, drop, replicate, arith, append_assoc, append-nil,
  length-append, length-take, length-drop, length-replicate, Bool-cases, ltb,
}
use anymount.Types.{Ino, FileHandle}
use anymount.Error.{Ntstatus}
use anymount.Fs.{ReadOnlyFs, FsResult, ◌>>=◌, fill, length-fill}
use anymount.Fs.Contract.{slice, Serves}
use anymount.Cfapi.Defs.{
  Operation, transfer_data, transfer_placeholders, transfer_chunk, slt, is_positive, decode_ino,
}
use anymount.Cfapi.Chunks.{
  add64, want_of, stream_loop, stream_chunks, stream_opened, stream_fetch, fetch_file,
  handle_fetch_data,
}
use anymount.Cfapi.Steps.{slt-eq, slice_of, loop_done, loop_chunk}

-- The operations carry the content from `a` to `b` with success, each the bytes of its own range,
-- and in pieces of `transfer_chunk` but for one that ends at `b`.
abbrev pub Streams : List ℕ → ℕ → ℕ → List Operation → Type 0
Streams content a b [] = a ≡ b
Streams content a b (transfer_placeholders infos st ∷ ops) = ⊥
Streams content a b (transfer_data bytes off len st ∷ ops) =
    (off ≡ a)
    × (st ≡ 0)
    × (0 < len)
    × (bytes ≡ slice a len content)
    × (length bytes ≡ len)
    × ((a + len ≡ b) ⊎ (len ≡ transfer_chunk))
    × Streams content (a + len) b ops

abbrev pub Delivers :
    {S : Type 0}
    → List ℕ
    → ℕ
    → ℕ
    → List Operation
    → Option (FsResult (Unit {0})) × (S × List Operation)
    → Type 0
Delivers content a b ops out =
    (new : List Operation) × (out.0 ≡ some (ok tt))
    × (out.1.1 ≡ ops ++ new)
    × Streams content a b new

module _ (F : ReadOnlyFs) (nt : Ntstatus) (Inv : F.State → Type 0) (fh : FileHandle)
    (content : List ℕ) (serves : Serves F Inv fh content) (offset len : ℕ)
    (range : offset + len ≤ length content) (small : length content < 2 ^ 63) where
  loop-Delivers :
      (fuel sent : ℕ) (buf : List ℕ) (s : F.State) (ops : List Operation)
      → Inv s
      → len - sent < fuel
      → sent ≤ len
      → 0 < length buf
      → length buf ≡ min transfer_chunk len
      → Delivers content
          (offset + sent)
          (offset + len)
          ops
          (stream_loop F nt fuel fh offset len sent buf (s, ops))
  loop-Delivers zero sent buf s ops i f h b w = absurd (omega arith)
  loop-Delivers (suc fuel) sent buf s ops i f h b w =
      let below : slt sent len ≡ ltb sent len = slt-eq sent len (omega arith) (omega arith) in
      elim (Bool-cases (slt sent len)) [
        | inr done ↦
            rw (loop_done F nt fuel fh offset len sent buf s ops done)
              ([], refl, sym (append-nil ops), ground (arith, below))
        | inl more ↦
            (let gap : sent < len = ground (arith, below) in
              let asked : List ℕ = slice_of len sent buf in
              let want : ℕ = want_of len sent buf in
              let out = F.read_at fh (add64 offset sent) asked s in
              let part = fill out.0.1 asked in
              let next = part ++ drop want buf in
              let width : length asked ≡ want = omega (arith, length-take want buf) in
              let place : add64 offset sent ≡ offset + sent = omega arith in
              let count : length (slice (add64 offset sent) (length asked) content) ≡ want = omega (
                arith,
                width,
                length-take (length asked) (drop (add64 offset sent) content),
                length-drop (add64 offset sent) content,
              ) in
              let one_more : want ≡ suc (want - 1) = omega arith in
              let got : out.0.0 ≡ ok (suc (want - 1)) =
                serves.counts (add64 offset sent) asked s i
                ∙ ap (λ (k : ℕ). ok k) (count ∙ one_more) in
              let n : ℕ = min (suc (want - 1)) want in
              let whole : n ≡ want = omega arith in
              let bytes : take n part ≡ slice (offset + sent) n content =
                ap (λ (k : ℕ). take k part) (whole ∙ sym count)
                ∙ serves.fills (add64 offset sent) asked s i
                ∙ ap (λ (k : ℕ). slice (add64 offset sent) k content) (width ∙ sym whole)
                ∙ ap (λ (o : ℕ). slice o n content) place in
              let psize : length part ≡ want = length-fill out.0.1 asked ∙ width in
              let bsize : length next ≡ length buf =
                omega (arith, psize, length-append part (drop want buf), length-drop want buf) in
              let step : add64 sent n ≡ sent + n = omega arith in
              let now : List Operation = transfer_data (take n part) (add64 offset sent) n 0 ∷ [] in
              let same : offset + add64 sent n ≡ (offset + sent) + n = omega (arith, step) in
              let last : ((offset + sent) + n ≡ offset + len) ⊎ (n ≡ transfer_chunk) =
                ground arith in
              let ih =
                loop-Delivers fuel (add64 sent n) next out.1 (ops ++ now)
                  (serves.keeps (add64 offset sent) asked s i) (omega (arith, step))
                  (omega (arith, step)) (omega (arith, bsize)) (bsize ∙ w) in
              rw (loop_chunk F nt fuel fh offset len sent buf s ops (want - 1) more got) (
                now ++ ih.0,
                ih.1,
                ih.2 ∙ append_assoc ops now ih.0,
                (
                  place,
                  refl,
                  omega arith,
                  bytes,
                  omega (arith, length-take n part, psize),
                  last,
                  rw same at ih.3,
                ),
              ))
      ]

  stream_chunks-Delivers :
      (fuel : ℕ) (s : F.State) (ops : List Operation)
      → Inv s
      → 0 < len
      → len < fuel
      → Delivers content offset (offset + len) ops (stream_chunks F nt fuel fh offset len (s, ops))
  unfolding stream_chunks is_positive
  stream_chunks-Delivers fuel s ops i some_bytes f =
      let more : slt 0 len ≡ true = slt-eq 0 len (omega arith) (omega arith) ∙ ground arith in
      let width : length (replicate {A = ℕ} (min transfer_chunk len) 0) ≡ min transfer_chunk len =
        length-replicate {A = ℕ} (min transfer_chunk len) 0 in
      let start : offset + 0 ≡ offset = omega arith in
      rw (more, stream_chunks)
        (rw start at (
          loop-Delivers fuel 0 (replicate (min transfer_chunk len) 0) s ops i (omega arith)
            (omega arith) (omega (arith, width)) width))

-- For a file that the filesystem serves once it is open, a request for a range within it is answered
-- with the content of the range, given fuel for a round to each byte and one more: every operation
-- carries the bytes of its own range with success, the ranges follow each other from the start to the
-- end without gap or overlap, and every one is 1 MiB long but for one that ends at the end.
pub handle_fetch_data-Delivers :
    (F : ReadOnlyFs) (nt : Ntstatus) (Inv : F.State → Type 0) (fh : FileHandle) (content : List ℕ)
    (fuel : ℕ) (identity : List ℕ) (ino : Ino) (offset len : ℕ) (s : F.State) (ops : List Operation)
    → Serves F Inv fh content
    → decode_ino identity ≡ some ino
    → (F.open_file ino s).0 ≡ ok fh
    → Inv (F.open_file ino s).1
    → offset + len ≤ length content
    → length content < 2 ^ 63
    → 0 < len
    → len < fuel
    → (new : List Operation) × ((handle_fetch_data F nt fuel identity offset len (s, ops)).1.1
        ≡ ops ++ new)
      × Streams content offset (offset + len) new
unfolding handle_fetch_data fetch_file stream_fetch stream_opened
handle_fetch_data-Delivers F nt Inv fh content fuel identity ino offset len s ops serves d h i range
      small more f =
    let (new, e, l, t) =
      stream_chunks-Delivers F nt Inv fh content serves offset len range small fuel
        (F.open_file ino s).1 ops i more f in
    (new, rw (d, fetch_file, ◌>>=◌, h) l, t)
