-- ===== src/NfsProto/Progress.antt =====
-- What one READDIR3 call of src/backend/nfs/nfs_proto.rs gives, and when it gives nothing.
use mathlib.Core.Path.{subst}
use anymount.Prelude.{
  ℕ, ◌+◌, ◌-◌, ◌^◌, ◌<◌, ◌≡◌, refl, sym, ap, ◌∙◌, Bool, true, false, not, ◌&&◌, Bool-cases, inl,
  inr, ◌⊎◌, ltb, ◌++◌, to_be_bytes, Option, some, ok, List, [], ◌∷◌, ◌++◌, length, drop, ◌==◌,
  arith, All, All-take, All-drop, take-append-drop,
}
use anymount.Types.{Ino, DirEntry}
use anymount.Fs.{ReadOnlyFs, ◌>>=◌, FsResult}
use anymount.Readdir.{Entry, parent_of}
use anymount.Readdir.Listing.{listing, offer, Lists}
use anymount.Readdir.Refines.{emit-offer}
use anymount.Rpc.{ProcOutcome, success_with}
use anymount.NfsProto.Attrs.{Ctx, dirlist_overhead}
use anymount.NfsProto.Dirs.{
  Packing, DirList, dir_list, pack, build_dirlist, readdir_reply, readdir_ino,
}
use anymount.NfsProto.Entries.{dirents_of, entry_bytes, entries_bytes, Sized, entries_bytes-bound}
use anymount.NfsProto.Fitting.{
  fitting, fits_all, pack_entry, pack-Acts, offer-fitting, fitting-take, fits_all-fitting,
  length-entries_bytes,
}
use anymount.NfsProto.PostOp.{IsPostOp, best_effort-IsPostOp}
use anymount.Xdr.{write_u32}
use anymount.NfsProto.ListReply.{
  understood, list_bytes, length-list_bytes, readdir_reply-list_bytes, readdir3res-list_bytes,
}

module _ (F : ReadOnlyFs) (ctx : Ctx) (fuel : ℕ) (dir parent : Ino) (entries : List DirEntry)
    (L : Lists F dir entries) (up_is : (s : F.State) → (parent_of F dir s).0 ≡ parent) (count : ℕ)
    (enough : length entries < fuel) (cookies_fit : length entries + 3 < 2 ^ 64) where
  abbrev budget : ℕ
  budget = count - dirlist_overhead

  abbrev rest_at : ℕ → List Entry
  rest_at c = drop c (listing dir parent entries)

  pub built :
      (c : ℕ) (s : F.State)
      → (build_dirlist F ctx fuel dir c budget false s).0
        ≡ some (
            ok (record {
              entries =
                  entries_bytes
                    (fitting (count - dirlist_overhead) (drop c (listing dir parent entries)));
              eof = fits_all budget (rest_at c);
              packed =
                  length (fitting (count - dirlist_overhead) (drop c (listing dir parent entries)));
            }))
  unfolding build_dirlist
  built c s =
      let start : Packing = record { entries = []; remaining = budget; packed = 0 } in
      let told =
        emit-offer F (pack F ctx false) pack_entry (pack-Acts F ctx) dir entries L parent up_is fuel
          c start s enough cookies_fit in
      let (all, bytes, packed) = offer-fitting (rest_at c) start in
      let count_is : (offer pack_entry (rest_at c) start).1.packed
          ≡ length (fitting (count - dirlist_overhead) (drop c (listing dir parent entries))) =
        packed ∙ omega arith in
      ap dir_list told ∙ λ i.
      some (ok (record { entries = bytes i; eof = all i; packed = count_is i }))

drop_all : (es : List Entry) → drop (length es) es ≡ []
drop_all [] = refl
drop_all (e ∷ es) = drop_all es

true-false : true ≡ false → ⊥
true-false h = cc

-- A list cut to nothing begins with an entry for which there is no room, and one that is not is all there
-- or has an entry at least.
cut_or_not :
    (b : ℕ) (es : List Entry)
    → (((length (fitting b es) == 0) && not (fits_all b es) ≡ true)
        × ((e : Entry) × (rest : List Entry) × (es ≡ e ∷ rest) × (b < length (entry_bytes e))))
      ⊎ (((length (fitting b es) == 0) && not (fits_all b es) ≡ false)
          × ((fits_all b es ≡ true) ⊎ (0 < length (fitting b es))))
unfolding fitting fits_all
cut_or_not b [] = inr (refl, inl refl)
cut_or_not b (e ∷ es) = elim (Bool-cases (ltb b (length (entry_bytes e)))) [
  | inl h ↦ rw h (inl (refl, (e, es, refl, ground (arith, h))))
  | inr h ↦ rw h (inr (ground arith, inr (omega arith)))
]

-- NFS3ERR_TOOSMALL with the attributes of the directory.
abbrev pub IsTooSmall : Option ProcOutcome → Type 0
IsTooSmall o =
    (post : List ℕ) × IsPostOp post × (o ≡ some (success_with (to_be_bytes 4 10005 ++ post)))

readdir_reply-IsTooSmall :
    (F : ReadOnlyFs) (ctx : Ctx) (dir : Ino) (list : DirList) (s : F.State)
    → (list.packed == 0) && not list.eof ≡ true
    → IsTooSmall (readdir_reply F ctx dir (some (ok list)) s).0
unfolding readdir_reply write_u32
readdir_reply-IsTooSmall F ctx dir list s h =
    let (post, whole, is_post) = best_effort-IsPostOp F ctx dir (to_be_bytes 4 10005) s in
    (post, is_post, rw (h, ◌>>=◌, whole) refl)

-- What a call of READDIR3 gives the client, whose list is at `rest`.
abbrev pub Progress : ℕ → List Entry → Option ProcOutcome → Type 0
Progress b rest o =
    (((e : Entry) × (later : List Entry) × (rest ≡ e ∷ later) × (b < length (entry_bytes e)))
      × IsTooSmall o)
    ⊎ ((given : List Entry) × (behind : List Entry) × (eof : Bool) × (understood o
          ≡ some (dirents_of given, eof))
        × (given ++ behind ≡ rest)
        × (((eof ≡ true) × (behind ≡ [])) ⊎ ((eof ≡ false) × (0 < length given))))

module _ (F : ReadOnlyFs) (ctx : Ctx) (fuel : ℕ) (dir parent : Ino) (entries : List DirEntry)
    (L : Lists F dir entries) (up_is : (s : F.State) → (parent_of F dir s).0 ≡ parent) (count : ℕ)
    (enough : length entries < fuel) (cookies_fit : length entries + 3 < 2 ^ 64)
    (count_fits : count < 2 ^ 32) (sized : All Sized (listing dir parent entries)) (c : ℕ) where
  abbrev room : ℕ
  room = count - dirlist_overhead

  abbrev rest : List Entry
  rest = drop c (listing dir parent entries)

  abbrev given : List Entry
  given = fitting room rest

  abbrev made : DirList
  made = record { entries = entries_bytes given; eof = fits_all room rest; packed = length given }

  abbrev later : F.State → F.State
  later s = (build_dirlist F ctx fuel dir c room false s).1

  replied :
      (s : F.State)
      → (readdir_ino F ctx fuel c count false (some dir) s).0
        ≡ (readdir_reply F ctx dir (some (ok made)) (later s)).0
  unfolding readdir_ino
  replied s =
      ap (λ (x : Option (FsResult DirList)). (readdir_reply F ctx dir x (later s)).0)
        (built F ctx fuel dir parent entries L up_is count enough cookies_fit c s)

  given-Sized : All Sized given
  given-Sized =
      subst (All Sized) (sym (fitting-take room rest))
        (All-take Sized (length given) rest (All-drop Sized c (listing dir parent entries) sized))

  -- A list that is not cut to nothing is what the client reads.
  pub page_read :
      (s : F.State)
      → (length given == 0) && not (fits_all room rest) ≡ false
      → understood (readdir_ino F ctx fuel c count false (some dir) s).0
        ≡ some (dirents_of given, fits_all room rest)
  page_read s h =
      let (post, is_post, reply) = readdir_reply-list_bytes F ctx dir made (later s) h in
      let w = list_bytes post (entries_bytes given) (fits_all room rest) in
      let long : length given < length w = omega (
        arith,
        entries_bytes-bound given,
        length-list_bytes post (entries_bytes given) (fits_all room rest),
      ) in
      let small : length (entries_bytes given) < 2 ^ 32 =
        omega (arith, length-entries_bytes room rest) in
      ap understood (replied s ∙ reply)
      ∙ readdir3res-list_bytes post given (fits_all room rest) (length w) is_post given-Sized long
          small

  -- One READDIR3 call, at any cookie: it is answered TOOSMALL, and then the size that the client named
  -- has no room for the entry behind the cookie; or by a front part of what is behind the cookie, which
  -- is all of it if the end-of-file flag is set and has an entry at least if not.
  pub readdir_ino-Progress :
      (s : F.State) → Progress room rest (readdir_ino F ctx fuel c count false (some dir) s).0
  readdir_ino-Progress s = elim (cut_or_not room rest) [
    | inl (h, first) ↦ inl (
      first,
      subst IsTooSmall (sym (replied s)) (readdir_reply-IsTooSmall F ctx dir made (later s) h),
    )
    | inr (h, more) ↦
        (let joined : given ++ drop (length given) rest ≡ rest =
            ap (λ (x : List Entry). x ++ drop (length given) rest) (fitting-take room rest)
            ∙ take-append-drop (length given) rest in
          inr
            (given, drop (length given) rest, fits_all room rest, page_read s h, joined, ends more))
  ]
    where
      ends :
          (fits_all room rest ≡ true) ⊎ (0 < length given)
          → ((fits_all room rest ≡ true) × (drop (length given) rest ≡ []))
            ⊎ ((fits_all room rest ≡ false) × (0 < length given))
      ends x = elim (Bool-cases (fits_all room rest)) [
        | inl all ↦ inl (
          all,
          subst (λ (g : List Entry). drop (length g) rest ≡ [])
              (sym (fits_all-fitting room rest all)) (drop_all rest),
        )
        | inr cut ↦ inr (cut, some_given cut x)
      ]
        where
          some_given :
              fits_all room rest ≡ false
              → (fits_all room rest ≡ true) ⊎ (0 < length given)
              → 0 < length given
          some_given cut (inl all) = absurd (true-false (sym all ∙ cut))
          some_given cut (inr h) = h
