-- ===== src/Readdir/Steps.antt =====
-- One step of the functions of src/backend/readdir.rs, a lemma for each branch.
use anymount.Prelude.{ℕ, suc, ◌+◌, ◌-◌, ◌%◌, ◌^◌, ◌<◌, ◌≡◌, refl, Bool, true, false}
use anymount.Prelude.{some, List, [], ◌∷◌, arith}
use anymount.Prelude.{ok, err, inl, inr, ◌⊎◌, ◌==◌}
use anymount.Error.{FsError}
use anymount.Types.{Ino, DirEntry, directory}
use anymount.Fs.{ReadOnlyFs, Step, ◌>>=◌}
use anymount.Readdir.Defs.{Sink, accepted, full, Entry, synthesize, Emitted}
use anymount.Readdir.Defs.{trait_offset, for_entry, parent_of, emit_page, emit_pages}
use anymount.Readdir.Defs.{emit_dotdot, emit_dot, emit, dot, dotdot, dot_name, dotdot_name}
use anymount.Readdir.Listing.{offer}

abbrev pub entry_at : ℕ → DirEntry → Entry
entry_at o e = record { ino = e.ino; name = e.name; kind = e.kind; cookie = o + 3 }

-- The entry as `emit` hands it over, and as the listing has it.
abbrev pub sent : ℕ → DirEntry → Entry
sent o e = record { ino = e.ino; name = e.name; kind = e.kind; cookie = for_entry o }

pub sent-eq : (o : ℕ) (e : DirEntry) → o + 3 < 2 ^ 64 → sent o e ≡ entry_at o e
unfolding for_entry
sent-eq o e h = let c : (o + 2 + 1) % 2 ^ 64 ≡ o + 3 = omega arith in rw c

abbrev pub dot_entry : Ino → Entry
dot_entry dir = record { ino = dir; name = dot_name; kind = directory; cookie = dot }

abbrev pub dotdot_entry : Ino → Entry
dotdot_entry up = record { ino = up; name = dotdot_name; kind = directory; cookie = dotdot }

-- What `emit` returns for what a sink was told.
abbrev pub told_all : {T : Type 0} → Bool × T → Emitted T
told_all (all, t) = (some (ok all), t)

pub Sink-cases : (a : Sink) → (a ≡ accepted) ⊎ (a ≡ full)
Sink-cases accepted = inl refl
Sink-cases full = inr refl

module _ {T : Type 0} (g : Entry → T → Sink × T) where
  pub offer_accepted :
      (e : Entry) (es : List Entry) (t : T)
      → (g e t).0 ≡ accepted
      → offer g (e ∷ es) t ≡ offer g es (g e t).1
  unfolding offer
  offer_accepted e es t h = rw (h, offer)

  pub offer_full :
      (e : Entry) (es : List Entry) (t : T)
      → (g e t).0 ≡ full
      → offer g (e ∷ es) t ≡ (false, (g e t).1)
  unfolding offer
  offer_full e es t h = rw (h, offer)

module _ (F : ReadOnlyFs) {T : Type 0} (sink : Entry → T → Step F.State (Sink × T)) where
  pub page_accepted :
      (e : DirEntry) (page : List DirEntry) (o : ℕ) (t : T) (s : F.State)
      → o + 3 < 2 ^ 64
      → (sink (sent o e) t s).0.0 ≡ accepted
      → emit_page F sink (e ∷ page) o t s
        ≡ emit_page F sink page (o + 1) (sink (sent o e) t s).0.1 (sink (sent o e) t s).1
  unfolding emit_page
  page_accepted e page o t s h a = let n : (o + 1) % 2 ^ 64 ≡ o + 1 = omega arith in rw (a, n)

  pub page_full :
      (e : DirEntry) (page : List DirEntry) (o : ℕ) (t : T) (s : F.State)
      → (sink (sent o e) t s).0.0 ≡ full
      → emit_page F sink (e ∷ page) o t s
        ≡ ((true, o, (sink (sent o e) t s).0.1), (sink (sent o e) t s).1)
  unfolding emit_page
  page_full e page o t s a = rw a

  pub pages_end :
      (fuel : ℕ) (dir : Ino) (o : ℕ) (t : T) (s : F.State)
      → (F.readdir dir o s).0 ≡ ok []
      → emit_pages F sink (suc fuel) dir o t s ≡ ((some (ok true), t), (F.readdir dir o s).1)
  unfolding emit_pages
  pages_end fuel dir o t s h = rw h

  pub pages_err :
      (fuel : ℕ) (dir : Ino) (o : ℕ) (t : T) (s : F.State) (e : FsError)
      → (F.readdir dir o s).0 ≡ err e
      → emit_pages F sink (suc fuel) dir o t s ≡ ((some (err e), t), (F.readdir dir o s).1)
  unfolding emit_pages
  pages_err fuel dir o t s e h = rw h

  pub pages_stop :
      (fuel : ℕ) (dir : Ino) (o : ℕ) (t : T) (s : F.State) (e : DirEntry) (es : List DirEntry)
      → (F.readdir dir o s).0 ≡ ok (e ∷ es)
      → let out = emit_page F sink (e ∷ es) o t (F.readdir dir o s).1 in
        out.0.0 ≡ true
        → emit_pages F sink (suc fuel) dir o t s ≡ ((some (ok false), out.0.2), out.1)
  unfolding emit_pages
  pages_stop fuel dir o t s e es h stop = rw (h, ◌>>=◌, stop)

  pub pages_go :
      (fuel : ℕ) (dir : Ino) (o : ℕ) (t : T) (s : F.State) (e : DirEntry) (es : List DirEntry)
      → (F.readdir dir o s).0 ≡ ok (e ∷ es)
      → let out = emit_page F sink (e ∷ es) o t (F.readdir dir o s).1 in
        out.0.0 ≡ false
        → emit_pages F sink (suc fuel) dir o t s ≡ emit_pages F sink fuel dir out.0.1 out.0.2 out.1
  unfolding emit_pages
  pages_go fuel dir o t s e es h go = rw (h, ◌>>=◌, go)

  pub dots_skipped :
      (fuel : ℕ) (dir : Ino) (r : ℕ) (t : T) (s : F.State)
      → emit F sink fuel dir (suc (suc r)) synthesize t s ≡ emit_pages F sink fuel dir r t s
  unfolding emit emit_dot emit_dotdot trait_offset
  dots_skipped fuel dir r t s =
      let c : suc (suc r) - 2 ≡ r = omega arith in
      let t0 : (suc (suc r) == 0) ≡ false = ground arith in
      let t1 : (suc (suc r) == 1) ≡ false = ground arith in rw (t0, t1, c)

  pub dotdot_accepted :
      (fuel : ℕ) (dir : Ino) (t : T) (s : F.State)
      → let up = parent_of F dir s in
        let out = sink (dotdot_entry up.0) t up.1 in
        out.0.0 ≡ accepted
        → emit_dotdot F sink fuel dir 1 t s ≡ emit_pages F sink fuel dir 0 out.0.1 out.1
  unfolding emit_dotdot trait_offset
  dotdot_accepted fuel dir t s a = rw (◌>>=◌, a)

  pub dotdot_full :
      (fuel : ℕ) (dir : Ino) (t : T) (s : F.State)
      → let up = parent_of F dir s in
        let out = sink (dotdot_entry up.0) t up.1 in
        out.0.0 ≡ full → emit_dotdot F sink fuel dir 1 t s ≡ ((some (ok false), out.0.1), out.1)
  unfolding emit_dotdot
  dotdot_full fuel dir t s a = rw (◌>>=◌, a)

  pub dot_accepted :
      (fuel : ℕ) (dir : Ino) (t : T) (s : F.State)
      → let out = sink (dot_entry dir) t s in
        out.0.0 ≡ accepted
        → emit F sink fuel dir 0 synthesize t s ≡ emit_dotdot F sink fuel dir 1 out.0.1 out.1
  unfolding emit emit_dot
  dot_accepted fuel dir t s a = rw (◌>>=◌, a)

  pub dots_from_one :
      (fuel : ℕ) (dir : Ino) (t : T) (s : F.State)
      → emit F sink fuel dir 1 synthesize t s ≡ emit_dotdot F sink fuel dir 1 t s
  unfolding emit emit_dot
  dots_from_one fuel dir t s = refl

  pub dot_full :
      (fuel : ℕ) (dir : Ino) (t : T) (s : F.State)
      → let out = sink (dot_entry dir) t s in
        out.0.0 ≡ full → emit F sink fuel dir 0 synthesize t s ≡ ((some (ok false), out.0.1), out.1)
  unfolding emit emit_dot
  dot_full fuel dir t s a = rw (◌>>=◌, a)
