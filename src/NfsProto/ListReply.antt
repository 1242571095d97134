-- ===== src/NfsProto/ListReply.antt =====
-- A reply to READDIR3 of src/backend/nfs/nfs_proto.rs, and how a client takes it apart.
use anymount.Prelude.{
  ℕ, ◌^◌, ◌<◌, ◌≡◌, refl, ap, Bool, false, not, ◌&&◌, Option, some, none, ok, List, [], ◌++◌,
  length, ◌==◌, if◌then◌else◌, arith, to_be_bytes, length-to_be_bytes, length-append, append_assoc,
  append-nil, All, replicate,
}
use anymount.Types.{Ino}
use anymount.Fs.{ReadOnlyFs}
use anymount.Fs as Fs
use anymount.Xdr.{
  Read, Writer, fail, pure, ◌>>=◌, ◌>>◌, new_reader, read_u32, read_bool, skip, write_bool,
  write_u32, write_opaque_fixed, extend_from,
}
use anymount.Xdr.RoundTrip.{at, Fits, Fits-next, flag, read_u32-at, read_bool-at}
use anymount.Handle.{cookieverf}
use anymount.Readdir.{Entry}
use anymount.Rpc.{ProcOutcome, success_with, proc_unavail, garbage_args}
use anymount.NfsProto.Attrs.{Ctx}
use anymount.NfsProto.Dirs.{DirList, readdir_reply}
use anymount.NfsProto.PostOp.{
  skip_post_op_attr, IsPostOp, best_effort-IsPostOp, skip-at, skip_post_op_attr-at, length-IsPostOp,
}
use anymount.NfsProto.Entries.{
  Dirent, read_dirents, dirents_of, entries_bytes, Sized, read_dirents-at,
}

-- READDIR3res of RFC 1813: the entries, fewer than the fuel, and the end-of-file flag.
unfoldable pub readdir3res : ℕ → Read (List Dirent × Bool)
readdir3res k = do
  status ← read_u32
  skip_post_op_attr
  skip 8
  entries ← read_dirents k
  eof ← read_bool
  (if status == 0 then pure (entries, eof) else fail)

-- What the results say, if the client can read them; an entry has a byte at least.
abbrev pub understood : Option ProcOutcome → Option (List Dirent × Bool)
understood none = none
understood (some (success_with w)) = (readdir3res (length w) (new_reader w)).0
understood (some proc_unavail) = none
understood (some garbage_args) = none

-- The parts of a reply, the attributes of the directory in front.
abbrev pub list_bytes : List ℕ → List ℕ → Bool → List ℕ
list_bytes post entries eof =
    to_be_bytes 4 0
    ++ (post ++ (replicate 8 0 ++ (entries ++ (to_be_bytes 4 0 ++ to_be_bytes 4 (flag eof)))))

pub readdir_reply-list_bytes :
    (F : ReadOnlyFs) (ctx : Ctx) (dir : Ino) (list : DirList) (s : F.State)
    → (list.packed == 0) && not list.eof ≡ false
    → (post : List ℕ) × IsPostOp post
      × ((readdir_reply F ctx dir (some (ok list)) s).0
          ≡ some (success_with (list_bytes post list.entries list.eof)))
unfolding readdir_reply write_bool write_u32 write_opaque_fixed extend_from cookieverf
readdir_reply-list_bytes F ctx dir list s h =
    let (post, whole, is_post) = best_effort-IsPostOp F ctx dir (to_be_bytes 4 0) s in
    (
      post,
      is_post,
      rw (h, Fs.◌>>=◌, whole) (ap (λ (w : Writer). some (success_with w)) (simp append_assoc)),
    )

-- A word at the end.
last_flag :
    (before : List ℕ) (b : Bool)
    → Fits (at before (to_be_bytes 4 (flag b)))
    → read_bool (at before (to_be_bytes 4 (flag b)))
      ≡ (some b, at (before ++ to_be_bytes 4 (flag b)) [])
last_flag before b fits =
    rw (append-nil (to_be_bytes 4 (flag b))) at
      (read_bool-at before [] b (rw (append-nil (to_be_bytes 4 (flag b))) fits))

pub readdir3res-list_bytes :
    (post : List ℕ) (es : List Entry) (eof : Bool) (k : ℕ)
    → IsPostOp post
    → All Sized es
    → length es < k
    → length (entries_bytes es) < 2 ^ 32
    → (readdir3res k (new_reader (list_bytes post (entries_bytes es) eof))).0
      ≡ some (dirents_of es, eof)
unfolding readdir3res new_reader
readdir3res-list_bytes post es eof k hp hs hk room =
    let w₁ = to_be_bytes 4 0 in
    let w₃ = replicate 8 0 in
    let w₅ = to_be_bytes 4 (flag eof) in
    let a₃ = entries_bytes es ++ (w₁ ++ w₅) in
    let a₂ = w₃ ++ a₃ in
    let a₁ = post ++ a₂ in
    let b₁ = w₁ in
    let b₂ = b₁ ++ post in
    let b₃ = b₂ ++ w₃ in
    let b₄ = b₃ ++ (entries_bytes es ++ w₁) in
    let fits : Fits (at [] (w₁ ++ a₁)) =
      simp (length-append, length-to_be_bytes) (omega (arith, room, length-IsPostOp post hp)) in
    let f₁ = Fits-next [] w₁ a₁ fits in
    let f₂ = Fits-next b₁ post a₂ f₁ in
    let f₃ = Fits-next b₂ w₃ a₃ f₂ in
    let f₄ : Fits (at b₄ w₅) =
      Fits-next b₃ (entries_bytes es ++ w₁) w₅ (rw (append_assoc (entries_bytes es) w₁ w₅) f₃) in
    rw (
      ◌>>=◌,
      read_u32-at [] a₁ 0 (omega arith) fits,
      skip_post_op_attr-at b₁ post a₂ hp f₁,
      skip-at 8 b₂ w₃ a₃ refl f₂,
      read_dirents-at es k b₃ w₅ hs hk f₃,
      last_flag b₄ eof f₄,
    )

pub length-list_bytes :
    (post entries : List ℕ) (eof : Bool) → length entries < length (list_bytes post entries eof)
length-list_bytes post entries eof = simp (length-append, length-to_be_bytes) (omega arith)
