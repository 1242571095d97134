-- ===== src/Fuse/Read.antt =====
-- The callback `read` of src/backend/fuse.rs.
use anymount.Prelude.{
  ℕ, ◌≤◌, ◌≡◌, ◌∙◌, min, ◌⊎◌, inl, inr, List, ok, err, length, take, drop, replicate,
}
use anymount.Prelude.{arith, length-take, length-replicate, Result-cases}
use anymount.Types.{FileHandle}
use anymount.Error.{Libc, FsError, to_errno}
use anymount.Fs.{ReadOnlyFs, read_into, ◌>>=◌, fill, length-fill}
use anymount.Fs.Contract.{slice, Serves}
use anymount.Fuse.Defs.{reply_data, reply_error, max_read, read_buffer_len, read}

-- Whatever `read_at` writes and however many bytes it claims, the kernel is told the error, or is
-- handed a front part of the buffer, of at most `size` bytes and at most 16 MiB, and of no more bytes
-- than were claimed.
pub read_bounded :
    (F : ReadOnlyFs) (c : Libc) (erange : ℕ) (fh : FileHandle) (offset size : ℕ) (s : F.State)
    → let out = F.read_at fh offset (replicate (min size max_read) 0) s in
      ((e : FsError) × (out.0.0 ≡ err e)
        × ((read F c erange fh offset size s).0 ≡ reply_error (to_errno c e)))
      ⊎ ((n : ℕ) × (bytes : List ℕ) × (out.0.0 ≡ ok n)
          × ((read F c erange fh offset size s).0 ≡ reply_data bytes)
          × (bytes ≡ take (length bytes) (fill out.0.1 (replicate (min size max_read) 0)))
          × (length bytes ≤ n)
          × (length bytes ≤ min size max_read))
unfolding read read_into read_buffer_len
read_bounded F c erange fh offset size s =
    let room = replicate {A = ℕ} (min size max_read) 0 in
    let out = F.read_at fh offset room s in
    let buf = fill out.0.1 room in
    elim (Result-cases out.0.0) [
      | inl (n, h) ↦
          (let width : length buf ≡ min size max_read =
              length-fill out.0.1 room ∙ length-replicate (min size max_read) 0 in
            let count : length (take (min n (length buf)) buf) ≡ min n (length buf) =
              omega (arith, length-take (min n (length buf)) buf) in
            inr (
              n,
              take (min n (length buf)) buf,
              h,
              rw (◌>>=◌, h),
              rw count,
              omega (arith, count),
              omega (arith, count, width),
            ))
      | inr (e, h) ↦ inl (e, h, rw (◌>>=◌, h))
    ]

-- For a file that the filesystem serves, the kernel is handed exactly the bytes of its content at
-- the offset: `size` of them, or 16 MiB if that is fewer, or what is left of the file.
pub read-Serves :
    (F : ReadOnlyFs) (c : Libc) (erange : ℕ) (Inv : F.State → Type 0) (fh : FileHandle)
    (content : List ℕ) (offset size : ℕ) (s : F.State)
    → Serves F Inv fh content
    → Inv s
    → (read F c erange fh offset size s).0 ≡ reply_data (slice offset (min size max_read) content)
unfolding read read_into read_buffer_len
read-Serves F c erange Inv fh content offset size s serves i =
    let room = replicate {A = ℕ} (min size max_read) 0 in
    let width : length room ≡ min size max_read = length-replicate (min size max_read) 0 in
    let out = F.read_at fh offset room s in
    let part = slice offset (length room) content in
    let buf = fill out.0.1 room in
    let enough : min (length part) (length buf) ≡ length part =
      omega (arith, length-take (length room) (drop offset content), length-fill out.0.1 room) in
    rw (◌>>=◌, serves.counts offset room s i, enough, serves.fills offset room s i, width)
