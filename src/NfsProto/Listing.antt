-- ===== src/NfsProto/Listing.antt =====
-- A client that lists a directory by READDIR3 of src/backend/nfs/nfs_proto.rs until the end-of-file flag.
use mathlib.Core.Path.{subst}
use anymount.Prelude.{
  ℕ, zero, suc, ◌+◌, ◌-◌, ◌^◌, ◌<◌, ◌≤◌, ◌≡◌, refl, sym, ap, ◌∙◌, true, false, not, ◌&&◌,
  Bool-cases, inl, inr, Option, some, none, List, [], ◌∷◌, ◌++◌, length, take, drop, ◌==◌, arith,
  All, All-drop, drop-drop, take-append-drop, length-drop, length-take,
}
use anymount.Types.{Ino, DirEntry}
use anymount.Fs.{ReadOnlyFs, Step, pure, ◌>>=◌}
use anymount.Readdir.{Entry, parent_of}
use anymount.Readdir.Listing.{listing, Lists}
use anymount.Readdir.Resume.{last_cookie, Counts, listing-Counts, last_cookie-take}
use anymount.NfsProto.Attrs.{Ctx, dirlist_overhead}
use anymount.NfsProto.Dirs.{readdir_ino}
use anymount.NfsProto.Entries.{Dirent, dirents_of, entry_bytes, Sized}
use anymount.NfsProto.Fitting.{fitting, fits_all, fitting-take, fits_all-fitting, fitting_progress}
use anymount.NfsProto.Progress.{page_read}
use anymount.NfsProto.ListReply.{understood}

abbrev pub ahead : List Dirent → Option (List Dirent) → Option (List Dirent)
ahead front none = none
ahead front (some rest) = some (front ++ rest)

-- The cookie to go on from.
unfoldable pub cookie_behind : ℕ → List Dirent → ℕ
cookie_behind c [] = c
cookie_behind c (e ∷ es) = cookie_behind e.cookie es

-- The client, with a count for its replies.
module _ (F : ReadOnlyFs) (ctx : Ctx) (fuel : ℕ) (dir : Ino) (count : ℕ) where
  unfoldable pub list_all : ℕ → ℕ → Step F.State (Option (List Dirent))
  list_all zero cookie = pure none
  list_all (suc k) cookie = do
    reply ← readdir_ino F ctx fuel cookie count false (some dir)
    (elim (understood reply) [
      | none ↦ pure none
      | some answer ↦ elim answer.1 [
        | true ↦ pure (some answer.0)
        | false ↦ do rest ← list_all k (cookie_behind cookie answer.0); pure (ahead answer.0 rest)
      ]
    ])

-- An entry that a reply has room for.
pub record Fit (count : ℕ) (e : Entry) : Type 0 where
  pub sized : Sized e
  pub room : length (entry_bytes e) ≤ count - dirlist_overhead

dirents_of-append : (es fs : List Entry) → dirents_of (es ++ fs) ≡ dirents_of es ++ dirents_of fs
unfolding dirents_of
dirents_of-append [] fs = refl
dirents_of-append (e ∷ es) fs =
    ap
      (λ (x : List Dirent).
        (let d : Dirent = record { fileid = e.ino; name = e.name; cookie = e.cookie } in d) ∷ x)
      (dirents_of-append es fs)

cookie_behind-dirents_of :
    (c : ℕ) (es : List Entry) → cookie_behind c (dirents_of es) ≡ last_cookie c es
unfolding cookie_behind dirents_of last_cookie
cookie_behind-dirents_of c [] = refl
cookie_behind-dirents_of c (e ∷ es) = cookie_behind-dirents_of e.cookie es

drop-Counts : (n c : ℕ) (es : List Entry) → Counts c es → Counts (c + n) (drop n es)
drop-Counts zero c es h = subst (λ (x : ℕ). Counts x es) (omega arith) h
drop-Counts (suc n) c [] h = tt
drop-Counts (suc n) c (e ∷ es) h =
    subst (λ (x : ℕ). Counts x (drop n es)) (omega arith) (drop-Counts n (c + 1) es h.1)

module _ (F : ReadOnlyFs) (ctx : Ctx) (fuel : ℕ) (dir parent : Ino) (entries : List DirEntry)
    (L : Lists F dir entries) (up_is : (s : F.State) → (parent_of F dir s).0 ≡ parent) (count : ℕ)
    (enough : length entries < fuel) (cookies_fit : length entries + 3 < 2 ^ 64)
    (count_fits : count < 2 ^ 32) (fit : All (Fit count) (listing dir parent entries)) where
  abbrev budget : ℕ
  budget = count - dirlist_overhead

  abbrev rest_at : ℕ → List Entry
  rest_at c = drop c (listing dir parent entries)

  rest-Fit : (c : ℕ) → All (Fit count) (rest_at c)
  rest-Fit c = All-drop (Fit count) c (listing dir parent entries) fit

  not_small :
      (c : ℕ)
      → (length (fitting budget (rest_at c)) == 0) && not (fits_all budget (rest_at c)) ≡ false
  not_small c = elim (Bool-cases (fits_all budget (rest_at c))) [
    | inl all ↦ rw all (ground arith)
    | inr cut ↦
        (let some_packed =
            fitting_progress budget (rest_at c)
              (λ e rest same. (subst (All (Fit count)) same (rest-Fit c)).0.room) cut in
          rw cut (ground (arith, some_packed)))
  ]

  Fit-Sized : (es : List Entry) → All (Fit count) es → All Sized es
  Fit-Sized [] h = tt
  Fit-Sized (e ∷ es) h = (h.0.sized, Fit-Sized es h.1)

  one_page :
      (c : ℕ) (s : F.State)
      → understood (readdir_ino F ctx fuel c count false (some dir) s).0
        ≡ some (dirents_of (fitting budget (rest_at c)), fits_all budget (rest_at c))
  one_page c s =
      page_read F ctx fuel dir parent entries L up_is count enough cookies_fit count_fits
        (Fit-Sized (listing dir parent entries) fit) c s (not_small c)

  counted_from : (c : ℕ) → Counts c (rest_at c)
  counted_from c =
      subst (λ (x : ℕ). Counts x (rest_at c)) (omega arith)
        (drop-Counts c 0 (listing dir parent entries) (listing-Counts dir parent entries))

  -- Where a reply that is not the last leaves off.
  abbrev Leaves : ℕ → ℕ → Type 0
  Leaves c m =
      (0 < m)
      × (m ≤ length (rest_at c))
      × (cookie_behind c (dirents_of (fitting budget (rest_at c))) ≡ c + m)
      × (fitting budget (rest_at c) ++ rest_at (c + m) ≡ rest_at c)

  left_off :
      (c : ℕ) → fits_all budget (rest_at c) ≡ false → Leaves c (length (fitting budget (rest_at c)))
  left_off c cut =
      let rest = rest_at c in
      let es = fitting budget rest in
      let m : ℕ = length es in
      let front : es ≡ take m rest = fitting-take budget rest in
      let bound : m ≤ length rest =
        omega (arith, ap (λ (x : List Entry). length x) front, length-take m rest) in
      let cookie : cookie_behind c (dirents_of es) ≡ c + m =
        cookie_behind-dirents_of c es
        ∙ ap (λ (x : List Entry). last_cookie c x) front
        ∙ last_cookie-take m c rest (counted_from c)
        ∙ omega arith in
      let joined : es ++ rest_at (c + m) ≡ rest =
        ap (λ (x : List Entry). x ++ rest_at (c + m)) front
        ∙ ap (λ (x : List Entry). take m rest ++ x)
            (sym (drop-drop c m (listing dir parent entries)))
        ∙ take-append-drop m rest in
      (
        fitting_progress budget rest
            (λ e behind same. (subst (All (Fit count)) same (rest-Fit c)).0.room) cut,
        bound,
        cookie,
        joined,
      )

  rest_of :
      (k c : ℕ) (s : F.State)
      → length (rest_at c) < k
      → (list_all F ctx fuel dir count k c s).0 ≡ some (dirents_of (rest_at c))
  unfolding list_all
  rest_of zero c s h = absurd (omega arith)
  rest_of (suc k) c s h =
      let rest = rest_at c in
      let es = fitting budget rest in
      let page = one_page c s in
      elim (Bool-cases (fits_all budget rest)) [
        | inl all ↦
            rw (◌>>=◌, page, all)
              (ap (λ (x : List Entry). some (dirents_of x)) (fits_all-fitting budget rest all))
        | inr cut ↦
            (let (some_packed, bound, cookie, joined) = left_off c cut in
              let later =
                rest_of k (c + length es) (readdir_ino F ctx fuel c count false (some dir) s).1 (
                  omega (
                    arith,
                    length-drop (length es) rest,
                    ap (λ (x : List Entry). length x)
                        (drop-drop c (length es) (listing dir parent entries)),
                  )) in
              rw (◌>>=◌, page, cut, cookie, later)
                (ap (λ (x : List Dirent). some x)
                  (sym (dirents_of-append es (rest_at (c + length es))) ∙ ap dirents_of joined)))
      ]

-- A client that lists a directory by READDIR3, each time from the cookie of the last entry that it was
-- given, until a reply has the end-of-file flag, is given `.`, `..` and the entries of the directory, in
-- order, every one once, whatever the size of the replies that it asks for, if that has room for each
-- entry by itself; no reply is TOOSMALL, and there are no more calls than entries and one.
pub list_all-listing :
    (F : ReadOnlyFs) (ctx : Ctx) (fuel : ℕ) (dir parent : Ino) (entries : List DirEntry) (count : ℕ)
    (s : F.State)
    → Lists F dir entries
    → ((s' : F.State) → (parent_of F dir s').0 ≡ parent)
    → length entries < fuel
    → length entries + 3 < 2 ^ 64
    → count < 2 ^ 32
    → All (Fit count) (listing dir parent entries)
    → (list_all F ctx fuel dir count (length (listing dir parent entries) + 1) 0 s).0
      ≡ some (dirents_of (listing dir parent entries))
list_all-listing F ctx fuel dir parent entries count s L up_is enough cookies count_fits fit =
    rest_of F ctx fuel dir parent entries L up_is count enough cookies count_fits fit
      (length (listing dir parent entries) + 1) 0 s (omega arith)
