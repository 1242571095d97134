-- ===== src/NfsProto/Content.antt =====
-- READ3 of src/backend/nfs/nfs_proto.rs on a file whose content is known.
use anymount.Prelude.{
  ℕ, ◌+◌, ◌^◌, ◌<◌, ◌≤◌, ◌≡◌, ◌∙◌, some, List, length, drop, leb, replicate, length-replicate,
  length-take, length-drop, arith, ◌|>◌,
}
use anymount.Types.{Ino, FileAttr}
use anymount.Fs.{ReadOnlyFs, ◌>>=◌, fill, length-fill, read_into}
use anymount.Fs.Contract.{slice, Stores}
use anymount.Xdr.{Writer, new_writer, write_u32, write_bool, write_opaque_var}
use anymount.Rpc.{success_with}
use anymount.NfsProto.Attrs.{Ctx, nfs3_ok, write_post_op_attr_ok}
use anymount.NfsProto.Procs.{
  read_ino, read_opened, read_done, release_logging, min_of, saturating_add,
}

-- The result of READ3 on the bytes `file_data` at `offset` of a file of `size` bytes.
abbrev pub read3resok : Ctx → FileAttr → ℕ → ℕ → List ℕ → Writer
read3resok ctx a offset size file_data =
    new_writer
    |> write_u32 nfs3_ok
    |> write_post_op_attr_ok a ctx.fsid
    |> write_u32 (length file_data)
    |> write_bool (leb size (offset + length file_data))
    |> write_opaque_var file_data

module _ (F : ReadOnlyFs) (ctx : Ctx) (Inv : F.State → Type 0) (ino : Ino) (content : List ℕ)
    (law : Stores F Inv ino content) where
  pub read_ino-Stores :
      (offset count : ℕ) (s : F.State)
      → Inv s
      → offset + length content < 2 ^ 64
      → (a : FileAttr) × ((read_ino F ctx offset count (some ino) s).0
          ≡ success_with (read3resok ctx a offset (length content) (slice offset count content)))
        × Inv (read_ino F ctx offset count (some ino) s).1
  unfolding read_ino read_opened read_into read_done release_logging
  read_ino-Stores offset count s h room =
      let o = law.opened s h in
      let s₁ = (F.open_file ino s).1 in
      let buf = replicate count 0 in
      let out = F.read_at o.fh offset buf s₁ in
      let n : ℕ = length (slice offset count content) in
      let size : length buf ≡ count = length-replicate count 0 in
      let counts = rw size at (o.serves.counts offset buf s₁ o.is_open) in
      let fills = rw size at (o.serves.fills offset buf s₁ o.is_open) in
      let kept = o.closes out.1 (o.serves.keeps offset buf s₁ o.is_open) in
      let (a, got, sized, inv) = law.sized (F.release o.fh out.1).1 kept in
      let full : length (fill out.0.1 buf) ≡ count = length-fill out.0.1 buf ∙ size in
      let small : n ≤ count = omega (arith, length-take count (drop offset content)) in
      let m : min_of n (length (fill out.0.1 buf)) ≡ n = ground (arith, full, small) in
      let whole : n ≤ length content =
        omega (arith, length-take count (drop offset content), length-drop offset content) in
      let sum : saturating_add offset n ≡ offset + n = ground (arith, whole) in
      (a, rw (◌>>=◌, o.opens, counts, got, m, fills, sum, sized), rw (◌>>=◌, o.opens, counts) inv)
