-- ===== src/Error/Laws.antt =====
-- What a `Context` wrapper keeps, and what a conversion to `io::Error` keeps.
use anymount.Prelude.{
  ℕ, ◌≡◌, ◌⊎◌, inl, inr, refl, Bool, true, ◌||◌, none, some, arith, ◌==◌, Option-cases,
}
use anymount.Error.{FsError, IoError, ErrorKind, Ntstatus, Libc, context_of, io}
use anymount.Error.{
  to_string, to_nfsstat3, to_ntstatus, to_errno, innermost, unwrap_io, to_io_error, io_kind,
}

-- However often an error is wrapped in context, its NFS status, its NTSTATUS and its errno are
-- those of the error at the bottom of the chain.
pub codes-innermost :
    (nt : Ntstatus) (c : Libc) (e : FsError)
    → (to_nfsstat3 e ≡ to_nfsstat3 (innermost e))
      × (to_ntstatus nt e ≡ to_ntstatus nt (innermost e))
      × (to_errno c e ≡ to_errno c (innermost e))
unfolding to_nfsstat3 to_ntstatus to_errno innermost
codes-innermost nt c (context_of e msg) = codes-innermost nt c e
codes-innermost nt c e = (refl, refl, refl)

-- The error statuses of RFC 1813 section 2.6, NFS3_OK left out.
pub is_nfs3err : ℕ → Bool
is_nfs3err n =
    n == 1
    || n == 2
    || n == 5
    || n == 6
    || n == 13
    || n == 17
    || n == 18
    || n == 19
    || n == 20
    || n == 21
    || n == 22
    || n == 27
    || n == 28
    || n == 30
    || n == 31
    || n == 63
    || n == 66
    || n == 69
    || n == 70
    || n == 71
    || n == 10_001
    || n == 10_002
    || n == 10_003
    || n == 10_004
    || n == 10_005
    || n == 10_006
    || n == 10_007
    || n == 10_008

-- Every error is reported under a status that RFC 1813 lists as an error, never as NFS3_OK.
pub to_nfsstat3-is_nfs3err : (e : FsError) → is_nfs3err (to_nfsstat3 e) ≡ true
unfolding to_nfsstat3 is_nfs3err
to_nfsstat3-is_nfs3err (context_of e msg) = to_nfsstat3-is_nfs3err e
to_nfsstat3-is_nfs3err e = refl

unwrap_io-innermost : (e : FsError) (inner : IoError) → innermost e ≡ io inner → unwrap_io e ≡ inner
unfolding innermost unwrap_io
unwrap_io-innermost (context_of e msg) inner h = unwrap_io-innermost e inner h
unwrap_io-innermost (io e) inner h = cc
unwrap_io-innermost e inner h = absurd (ground arith)

innermost_idem : (e : FsError) → innermost (innermost e) ≡ innermost e
unfolding innermost
innermost_idem (context_of e msg) = innermost_idem e
innermost_idem e = refl

io_kind-eq-none : (e : FsError) → io_kind e ≡ none → (inner : IoError) × (e ≡ io inner)
unfolding io_kind
io_kind-eq-none (io inner) h = (inner, refl)
io_kind-eq-none e h = cc

whole :
    (e : FsError) (inner : IoError)
    → io_kind (innermost e) ≡ none
    → innermost e ≡ io inner
    → to_io_error e ≡ inner
unfolding to_io_error
whole e inner h b = ground (arith, unwrap_io-innermost e inner b)

converted :
    (e : FsError) (k : ErrorKind)
    → io_kind (innermost e) ≡ some k
    → ((to_io_error e).raw_os_error ≡ none)
      × ((to_io_error e).message ≡ to_string e)
      × ((to_io_error e).kind ≡ (to_io_error (innermost e)).kind)
unfolding to_io_error
converted e k h = ground (arith, innermost_idem e)

-- A chain that ends in an `io::Error` is converted to that very error. Any other chain becomes a
-- fresh `io::Error` with no OS code, the message of the outermost error, and a kind that the
-- wrapping does not change.
pub to_io_error_cases :
    (e : FsError)
    → ((inner : IoError) × (innermost e ≡ io inner) × (to_io_error e ≡ inner))
      ⊎ (((to_io_error e).raw_os_error ≡ none)
          × ((to_io_error e).message ≡ to_string e)
          × ((to_io_error e).kind ≡ (to_io_error (innermost e)).kind))
to_io_error_cases e = elim (Option-cases (io_kind (innermost e))) [
  | inl h ↦ let (inner, b) = io_kind-eq-none (innermost e) h in inl (inner, b, whole e inner h b)
  | inr (k, h) ↦ inr (converted e k h)
]
