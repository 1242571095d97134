-- ===== src/Readdir/Resume.antt =====
-- A client that pages through a listing by cookies, as the NFS client and the kernel do: it calls
-- `emit` again and again, each time resuming after the last entry that it was given.
use Prim.Native.Nat.{min}
use anymount.Prelude.{ℕ, zero, suc, ◌+◌, ◌^◌, ◌<◌, ◌≡◌, refl, sym, ap, ◌∙◌}
use anymount.Prelude.{List, [], ◌∷◌, ◌++◌, length, take, drop, arith}
use anymount.Prelude.{append-nil, append_assoc, drop-min}
use anymount.Types.{Ino, DirEntry}
use anymount.Fs.{ReadOnlyFs, pure}
use anymount.Readdir.Defs.{Sink, accepted, full, Entry, synthesize, emit, parent_of}
use anymount.Readdir.Listing.{numbered, listing, offer, Lists}
use anymount.Readdir.Refines.{emit-offer}

-- A reply with room for a number of entries, and the entries that the client holds so far.
abbrev pub Reply : Type 0
Reply = ℕ × List Entry

unfoldable pub gather : Entry → Reply → Sink × Reply
gather e (zero, held) = (full, (zero, held))
gather e (suc room, held) = (accepted, (room, held ++ (e ∷ [])))

unfoldable pub last_cookie : ℕ → List Entry → ℕ
last_cookie c [] = c
last_cookie c (e ∷ es) = last_cookie e.cookie es

-- One call for each room in the list, whatever the filesystem's state is by then.
unfoldable pub read_all : (F : ReadOnlyFs) → ℕ → Ino → List ℕ → List Entry → F.State → List Entry
read_all F fuel dir [] held s = held
read_all F fuel dir (room ∷ rooms) held s =
    let out =
      emit F (λ e t. pure (gather e t)) fuel dir (last_cookie 0 held) synthesize (room, held) s in
    read_all F fuel dir rooms out.0.1.1 out.1

unfoldable pub total : List ℕ → ℕ
total [] = 0
total (n ∷ ns) = n + total ns

offer-gather :
    (es : List Entry) (room : ℕ) (held : List Entry)
    → (offer gather es (room, held)).1.1 ≡ held ++ take room es
unfolding offer gather
offer-gather [] zero held = sym (append-nil held)
offer-gather [] (suc room) held = sym (append-nil held)
offer-gather (e ∷ es) zero held = sym (append-nil held)
offer-gather (e ∷ es) (suc room) held =
    offer-gather es room (held ++ (e ∷ [])) ∙ append_assoc held (e ∷ []) (take room es)

-- The cookies count up from `c`.
abbrev pub Counts : ℕ → List Entry → Type 0
Counts c [] = Unit
Counts c (e ∷ es) = (e.cookie ≡ c + 1) × Counts (c + 1) es

numbered-Counts : (o c : ℕ) (es : List DirEntry) → c ≡ o + 2 → Counts c (numbered o es)
unfolding numbered
numbered-Counts o c [] h = tt
numbered-Counts o c (e ∷ es) h = (omega arith, numbered-Counts (o + 1) (c + 1) es (omega arith))

pub listing-Counts : (dir parent : Ino) (es : List DirEntry) → Counts 0 (listing dir parent es)
unfolding listing
listing-Counts dir parent es = (refl, (refl, numbered-Counts 0 2 es refl))

pub last_cookie-take :
    (n c : ℕ) (es : List Entry) → Counts c es → last_cookie c (take n es) ≡ c + min n (length es)
unfolding last_cookie
last_cookie-take zero c es h = omega arith
last_cookie-take (suc n) c [] h = omega arith
last_cookie-take (suc n) c (e ∷ es) (k, h) = rw k (omega (arith, last_cookie-take n (c + 1) es h))

module _ {ℓ} {A : Type ℓ} where
  take-add : (m n : ℕ) (xs : List A) → take (m + n) xs ≡ take m xs ++ take n (drop m xs)
  take-add zero n xs = let e : 0 + n ≡ n = omega arith in rw e
  take-add (suc m) zero [] = let e : suc m + 0 ≡ suc m = omega arith in rw e
  take-add (suc m) (suc n) [] = let e : suc m + suc n ≡ suc (m + suc n) = omega arith in rw e
  take-add (suc m) n (x ∷ xs) =
      let e : suc m + n ≡ suc (m + n) = omega arith in rw (e, take-add m n xs)

module _ (F : ReadOnlyFs) (dir parent : Ino) (entries : List DirEntry) (L : Lists F dir entries)
    (up_is : (s : F.State) → (parent_of F dir s).0 ≡ parent) where
  -- The client holds a front part of the listing, and goes on from there.
  read_all_from :
      (fuel m : ℕ) (rooms : List ℕ) (held : List Entry) (s : F.State)
      → length entries < fuel
      → length entries + 3 < 2 ^ 64
      → held ≡ take m (listing dir parent entries)
      → read_all F fuel dir rooms held s ≡ take (m + total rooms) (listing dir parent entries)
  unfolding read_all total
  read_all_from fuel m [] held s hf hb e = let z : m + 0 ≡ m = omega arith in rw (z, e)
  read_all_from fuel m (room ∷ rooms) held s hf hb e =
      let whole : List Entry = listing dir parent entries in
      let out =
        emit F (λ x t. pure (gather x t)) fuel dir (last_cookie 0 held) synthesize (room, held) s in
      let seen : last_cookie 0 held ≡ min m (length whole) =
        rw e (last_cookie-take m 0 whole (listing-Counts dir parent entries) ∙ omega arith) in
      let got : out.0.1 ≡ (offer gather (drop (last_cookie 0 held) whole) (room, held)).1 =
        ap (λ x. x.1)
          (emit-offer F (λ x t. pure (gather x t)) gather (λ x t s'. refl) dir entries L parent
            up_is fuel (last_cookie 0 held) (room, held) s hf hb) in
      let grown : out.0.1.1 ≡ take (m + room) whole =
        ap (λ x. x.1) got
        ∙ offer-gather _ room held
        ∙ rw (seen, drop-min m whole, e) (sym (take-add m room whole)) in
      let sum : m + (room + total rooms) ≡ (m + room) + total rooms = omega arith in
      rw sum (read_all_from fuel (m + room) rooms out.0.1.1 out.1 hf hb grown)

  -- Whatever the room of each reply, the client is given the listing of the directory from its
  -- start, in order, every entry once: as many entries as the replies have room for together.
  pub read_all-listing :
      (fuel : ℕ) (rooms : List ℕ) (s : F.State)
      → length entries < fuel
      → length entries + 3 < 2 ^ 64
      → read_all F fuel dir rooms [] s ≡ take (total rooms) (listing dir parent entries)
  read_all-listing fuel rooms s hf hb =
      let z : 0 + total rooms ≡ total rooms = omega arith in
      rw z at (read_all_from fuel 0 rooms [] s hf hb refl)
