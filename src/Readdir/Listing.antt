-- ===== src/Readdir/Listing.antt =====
-- What a listing of a directory is, apart from how it is paged: the abstract side of
-- src/backend/readdir.rs.
use anymount.Prelude.{ℕ, zero, suc, ◌+◌, ◌≡◌, refl, ap, ◌∙◌, Bool, true, false}
use anymount.Prelude.{List, [], ◌∷◌, ◌++◌, length, drop, arith, ok}
use anymount.Types.{Ino, directory, DirEntry}
use anymount.Fs.{ReadOnlyFs, Step}
use anymount.Readdir.Defs.{Sink, accepted, full, Entry, dot, dotdot, dot_name, dotdot_name}

-- The entries with their cookies; the entry at offset `o` has cookie `o + 3`.
unfoldable pub numbered : ℕ → List DirEntry → List Entry
numbered o [] = []
numbered o (e ∷ es) =
    record { ino = e.ino; name = e.name; kind = e.kind; cookie = o + 3 } ∷ numbered (o + 1) es

unfoldable pub dots_of : Ino → Ino → List Entry
dots_of dir parent =
    record { ino = dir; name = dot_name; kind = directory; cookie = dot }
    ∷ record { ino = parent; name = dotdot_name; kind = directory; cookie = dotdot }
    ∷ []

-- The whole listing of `dir`: `.`, `..`, and its entries.
unfoldable pub listing : Ino → Ino → List DirEntry → List Entry
unfolding dots_of
listing dir parent entries = dots_of dir parent ++ numbered 0 entries

-- Hand the entries to a sink one by one until it is full: whether all were taken, and the sink's
-- state.
module _ {T : Type 0} (g : Entry → T → Sink × T) where
  unfoldable pub offer : List Entry → T → Bool × T
  offer [] t = (true, t)
  offer (e ∷ es) t =
      let (answer, t') = g e t in
      let rest = offer es t' in elim answer [ full ↦ (false, t') | accepted ↦ rest ]

  pub offer-append :
      (xs ys : List Entry) (t : T)
      → offer (xs ++ ys) t
        ≡ elim ((offer xs t).0) [ true ↦ offer ys (offer xs t).1 | false ↦ offer xs t ]
  unfolding offer
  offer-append [] ys t = refl
  offer-append (x ∷ xs) ys t = ground (arith, offer-append xs ys (g x t).1)

-- `page` is what the trait documents of `readdir` at an offset where `rest` is left: a front part
-- of it, and empty only if nothing is left.
pub record IsPage (page rest : List DirEntry) : Type 0 where
  pub more : List DirEntry
  pub front : page ++ more ≡ rest
  pub ends : page ≡ [] → rest ≡ []

-- `dir` holds `entries`, whatever state the implementation is in.
pub record Lists (F : ReadOnlyFs) (dir : Ino) (entries : List DirEntry) : Type 0 where
  pub page_at : ℕ → F.State → List DirEntry
  pub answers : (o : ℕ) (s : F.State) → (F.readdir dir o s).0 ≡ ok (page_at o s)
  pub pages : (o : ℕ) (s : F.State) → IsPage (page_at o s) (drop o entries)

-- A sink whose answer and new state do not depend on the state of the filesystem.
abbrev pub Acts : {S T : Type 0} → (Entry → T → Step S (Sink × T)) → (Entry → T → Sink × T) → Type 0
Acts {S} {T} sink g = (e : Entry) (t : T) (s : S) → (sink e t s).0 ≡ g e t

pub numbered-append :
    (o : ℕ) (xs ys : List DirEntry)
    → numbered o (xs ++ ys) ≡ numbered o xs ++ numbered (o + length xs) ys
unfolding numbered
numbered-append o [] ys = ap (λ (k : ℕ). numbered k ys) (omega arith)
numbered-append o (x ∷ xs) ys =
    ground (arith, numbered-append (o + 1) xs ys, ap (λ (k : ℕ). numbered k ys) shift)
  where
    shift : (o + 1) + length xs ≡ o + suc (length xs)
    shift = omega arith

pub drop-numbered :
    (n o : ℕ) (es : List DirEntry) → drop n (numbered o es) ≡ numbered (o + n) (drop n es)
unfolding numbered
drop-numbered zero o es = ap (λ (k : ℕ). numbered k es) (omega arith)
drop-numbered (suc n) o [] = refl
drop-numbered (suc n) o (e ∷ es) =
    drop-numbered n (o + 1) es ∙ ap (λ (k : ℕ). numbered k (drop n es)) (omega arith)
