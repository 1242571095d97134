-- ===== src/Cfapi/Chunks.antt =====
-- src/backend/cfapi.rs: the transfer of a file.
use anymount.Prelude.{
  ℕ, zero, suc, ◌+◌, ◌-◌, ◌%◌, ◌^◌, min, true, false, Option, none, some, List, [], ◌++◌,
}
use anymount.Prelude.{ok, err, length, take, drop, replicate}
use anymount.Types.{Ino, FileHandle}
use anymount.Error.{FsError, invalid_argument, io, Ntstatus, to_ntstatus}
use anymount.Stream.{unexpected_eof_error}
use anymount.Fs.{ReadOnlyFs, Step, pure, ◌>>=◌, ◌>>◌, FsResult, read_into}
use anymount.Cfapi.Defs.{
  transfer_data, transfer_chunk, decode_ino, slt, is_positive, World, lift, execute,
}

-- `(offset + sent)` and `(length - sent)` on i64.
abbrev pub add64 : ℕ → ℕ → ℕ
add64 a b = (a + b) % 2 ^ 64

abbrev pub sub64 : ℕ → ℕ → ℕ
sub64 a b = (a + (2 ^ 64 - b)) % 2 ^ 64

abbrev pub want_of : ℕ → ℕ → List ℕ → ℕ
want_of len sent buf = min (sub64 len sent) (length buf)

module _ (F : ReadOnlyFs) (nt : Ntstatus) where
  -- The two arms that end the transfer with an error for what has not been sent.
  unfoldable pub fail_rest : FsError → ℕ → ℕ → ℕ → Step (World F) (Option (FsResult (Unit {0})))
  fail_rest e offset len sent = do
    execute F (transfer_data [] (add64 offset sent) (sub64 len sent) (to_ntstatus nt e))
    pure (some (err e))

  -- The `while` loop, one round for each unit of fuel; `buf` is the buffer that the rounds share.
  unfoldable pub stream_loop :
      ℕ → FileHandle → ℕ → ℕ → ℕ → List ℕ → Step (World F) (Option (FsResult (Unit {0})))
  stream_loop zero fh offset len sent buf = pure none
  stream_loop (suc fuel) fh offset len sent buf = elim (slt sent len) [
    | false ↦ pure (some (ok tt))
    | true ↦ do
      (n, part) ← lift F (read_into F fh (add64 offset sent) (take (want_of len sent buf) buf))
      (elim n [
        | err e ↦ fail_rest e offset len sent
        | ok zero ↦ fail_rest (io unexpected_eof_error) offset len sent
        | ok (suc k) ↦ do
          execute F (
              transfer_data (take (min (suc k) (want_of len sent buf)) part) (add64 offset sent)
                (min (suc k) (want_of len sent buf)) 0)
          stream_loop fuel fh offset len (add64 sent (min (suc k) (want_of len sent buf)))
              (part ++ drop (want_of len sent buf) buf)
      ])
  ]

  unfoldable pub stream_chunks :
      ℕ → FileHandle → ℕ → ℕ → Step (World F) (Option (FsResult (Unit {0})))
  stream_chunks fuel fh offset len = elim (is_positive len) [
    | false ↦ do execute F (transfer_data [] offset 0 0); pure (some (ok tt))
    | true ↦ stream_loop fuel fh offset len 0 (replicate (min transfer_chunk len) 0)
  ]

  unfoldable pub stream_opened :
      ℕ → ℕ → ℕ → FsResult FileHandle → Step (World F) (Option (FsResult (Unit {0})))
  stream_opened fuel offset len (err e) = pure (some (err e))
  stream_opened fuel offset len (ok fh) = do
    result ← stream_chunks fuel fh offset len
    released ← lift F (F.release fh)
    pure result

  unfoldable pub stream_fetch : ℕ → Ino → ℕ → ℕ → Step (World F) (Option (FsResult (Unit {0})))
  stream_fetch fuel ino offset len = do
    opened ← lift F (F.open_file ino)
    stream_opened fuel offset len opened

  -- The callback; an error of `stream_fetch` is only logged.
  unfoldable pub fetch_file : ℕ → Option Ino → ℕ → ℕ → Step (World F) (Option (Unit {0}))
  fetch_file fuel none offset len = do
    execute F (transfer_data [] offset len (to_ntstatus nt invalid_argument))
    pure (some tt)
  fetch_file fuel (some ino) offset len = do
    result ← stream_fetch fuel ino offset len
    pure (elim result [ none ↦ none | some r ↦ some tt ])

  unfoldable pub handle_fetch_data : ℕ → List ℕ → ℕ → ℕ → Step (World F) (Option (Unit {0}))
  handle_fetch_data fuel identity offset len = fetch_file fuel (decode_ino identity) offset len
