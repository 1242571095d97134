-- ===== src/Cfapi/Leftovers.antt =====
-- What the teardown of src/backend/cfapi.rs leaves in the directory of the mount point.
use mathlib.Core.Path.{subst}
use anymount.Prelude.{ℕ, Bool, true, false, ◌≡◌, ◌∙◌, ◌⊎◌, inl, inr, List, [], ◌∷◌, Result, ok, err}
use anymount.Types.{OsStr}
use anymount.Error.{IoError}
use anymount.Cfapi.Session.{
  Platform, CfApiHandle, make_writable, remove_as, remove_entry, remove_entries, remove_read,
  remove_leftover_placeholders, unmount,
}

-- An entry of a directory, and whether the system has refused a call about it.
pub record Entry : Type 0 where
  pub present : Bool
  pub is_dir : Bool
  pub readonly : Bool
  pub refused : Bool

abbrev pub Names : List (Result OsStr IoError) → OsStr → Type 0
Names [] p = ⊥
Names (err e ∷ es) p = Names es p
Names (ok q ∷ es) p = (q ≡ p) ⊎ Names es p

-- Nothing appears, and no refusal is forgotten.
abbrev pub Quiet : (OsStr → Entry) → (OsStr → Entry) → Type 0
Quiet v w =
    (p : OsStr)
    → (((v p).present ≡ false → (w p).present ≡ false)
        × ((v p).refused ≡ true → (w p).refused ≡ true))

-- The entry is gone, or it is one about which a call has been refused.
abbrev pub Noted : Entry → Type 0
Noted e = (e.present ≡ false) ⊎ (e.refused ≡ true)

abbrev pub Listed : Result (List (Result OsStr IoError)) IoError → (OsStr → Entry) → Type 0
Listed (ok es) w = (p : OsStr) → Names es p ⊎ Noted (w p)
Listed (err x) w = (p : OsStr) → Noted (w p)

abbrev pub Told : (Entry → Bool) → Result Bool IoError → Entry → Type 0
Told f (ok b) e = f e ≡ b
Told f (err x) e = e.refused ≡ true

abbrev pub Cleared : Result (Unit {0}) IoError → Entry → Type 0
Cleared (ok u) e = e.readonly ≡ false
Cleared (err x) e = e.refused ≡ true

abbrev pub Removed : Type 0 → Result (Unit {0}) IoError → Entry → Type 0
Removed fault (ok u) e = e.present ≡ false
Removed fault (err x) e = fault ⊎ Noted e

-- What the documentation of `std::fs` says of the calls on the directory `d`, in which nothing else
-- creates entries. Each call may fail: the entries that a failed call is about are `refused` from then
-- on. A call that succeeds tells or does what it is for. To remove a file as a directory, or a
-- directory or a read-only file as a file, is a fault of the caller, and its failure is not a refusal.
pub record Removes (P : Platform) (view : P.State → OsStr → Entry) (d : OsStr) : Type 0 where
  pub lists :
      (s : P.State)
      → Quiet (view s) (view (P.read_dir d s).1)
        × Listed (P.read_dir d s).0 (view (P.read_dir d s).1)
  pub sees :
      (p : OsStr) (s : P.State)
      → Quiet (view s) (view (P.is_dir p s).1)
        × Told (λ (e : Entry). e.is_dir) (P.is_dir p s).0 (view (P.is_dir p s).1 p)
  pub asks :
      (p : OsStr) (s : P.State)
      → Quiet (view s) (view (P.readonly p s).1)
        × ((view (P.readonly p s).1 p).is_dir ≡ (view s p).is_dir)
        × Told (λ (e : Entry). e.readonly) (P.readonly p s).0 (view (P.readonly p s).1 p)
  pub clears :
      (p : OsStr) (s : P.State)
      → Quiet (view s) (view (P.clear_readonly p s).1)
        × ((view (P.clear_readonly p s).1 p).is_dir ≡ (view s p).is_dir)
        × Cleared (P.clear_readonly p s).0 (view (P.clear_readonly p s).1 p)
  pub removes_dir :
      (p : OsStr) (s : P.State)
      → Quiet (view s) (view (P.remove_dir_all p s).1)
        × Removed
            ((view s p).is_dir ≡ false)
            (P.remove_dir_all p s).0
            (view (P.remove_dir_all p s).1 p)
  pub removes_file :
      (p : OsStr) (s : P.State)
      → Quiet (view s) (view (P.remove_file p s).1)
        × Removed
            (((view s p).is_dir ≡ true) ⊎ ((view s p).readonly ≡ true))
            (P.remove_file p s).0
            (view (P.remove_file p s).1 p)

Quiet-trans : (u v w : OsStr → Entry) → Quiet u v → Quiet v w → Quiet u w
Quiet-trans u v w f g p = ((λ h. (g p).0 ((f p).0 h)), λ h. (g p).1 ((f p).1 h))

Noted-stays : (v w : OsStr → Entry) (p : OsStr) → Quiet v w → Noted (v p) → Noted (w p)
Noted-stays v w p f (inl h) = inl ((f p).0 h)
Noted-stays v w p f (inr h) = inr ((f p).1 h)

Removed-Noted :
    (fault : Type 0) (r : Result (Unit {0}) IoError) (e : Entry)
    → (fault → ⊥)
    → Removed fault r e
    → Noted e
Removed-Noted fault (ok u) e never h = inl h
Removed-Noted fault (err x) e never (inl f) = absurd (never f)
Removed-Noted fault (err x) e never (inr h) = h

-- Writable as it is told to be, unless a call about it was refused.
cleared :
    (r : Result (Unit {0}) IoError) (e : Entry)
    → Cleared r e
    → (e.readonly ≡ false) ⊎ (e.refused ≡ true)
cleared (ok u) e h = inl h
cleared (err x) e h = inr h

not_both : (b : Bool) → b ≡ false → b ≡ true → ⊥
not_both b h k = cc

module _ (P : Platform) (view : P.State → OsStr → Entry) (d : OsStr) (law : Removes P view d) where
  -- Nothing has appeared, and the entry is gone or noted.
  abbrev Swept : OsStr → P.State → P.State → Type 0
  Swept p s t = Quiet (view s) (view t) × Noted (view t p)

  -- It can be removed as a file.
  abbrev Ready : OsStr → P.State → Type 0
  Ready p s =
      (((view s p).is_dir ≡ false) × ((view s p).readonly ≡ false)) ⊎ ((view s p).refused ≡ true)

  make_writable-Ready :
      (p : OsStr) (s : P.State) (r : Result Bool IoError)
      → ((view s p).is_dir ≡ false) ⊎ ((view s p).refused ≡ true)
      → Told (λ (e : Entry). e.readonly) r (view s p)
      → Quiet (view s) (view (make_writable P p r s).1) × Ready p (make_writable P p r s).1
  make_writable-Ready p s (err x) h k = ((λ q. ((λ g. g), λ g. g)), inr k)
  make_writable-Ready p s (ok false) (inl h) k = ((λ q. ((λ g. g), λ g. g)), inl (h, k))
  make_writable-Ready p s (ok false) (inr h) k = ((λ q. ((λ g. g), λ g. g)), inr h)
  make_writable-Ready p s (ok true) (inr h) k =
      let (quiet, same, c) = law.clears p s in (quiet, inr ((quiet p).1 h))
  make_writable-Ready p s (ok true) (inl h) k =
      let (quiet, same, c) = law.clears p s in
      (
        quiet,
        elim (cleared (P.clear_readonly p s).0 (view (P.clear_readonly p s).1 p) c) [
          | inl w ↦ inl (same ∙ h, w)
          | inr n ↦ inr n
        ],
      )

  remove_file-Swept : (p : OsStr) (s : P.State) → Ready p s → Swept p s (P.remove_file p s).1
  remove_file-Swept p s (inr h) =
      let (quiet, gone) = law.removes_file p s in (quiet, inr ((quiet p).1 h))
  remove_file-Swept p s (inl (h, k)) =
      let (quiet, gone) = law.removes_file p s in
      (quiet, Removed-Noted _ (P.remove_file p s).0 _ no_fault gone)
    where
      no_fault : ((view s p).is_dir ≡ true) ⊎ ((view s p).readonly ≡ true) → ⊥
      no_fault (inl g) = not_both _ h g
      no_fault (inr g) = not_both _ k g

  as_file-Swept :
      (p : OsStr) (s : P.State)
      → ((view s p).is_dir ≡ false) ⊎ ((view s p).refused ≡ true)
      → Swept p s (remove_as P p (ok false) s).1
  as_file-Swept p s h =
      let (quiet₁, same, told) = law.asks p s in
      let m = P.readonly p s in
      let still : ((view m.1 p).is_dir ≡ false) ⊎ ((view m.1 p).refused ≡ true) = elim h [
        | inl f ↦ inl (same ∙ f)
        | inr n ↦ inr ((quiet₁ p).1 n)
      ] in
      let (quiet₂, ready) = make_writable-Ready p m.1 m.0 still told in
      let w = make_writable P p m.0 m.1 in
      let x = (P.remove_file p w.1).1 in
      let (quiet₃, noted) = remove_file-Swept p w.1 ready in
      (
        Quiet-trans (view s) (view m.1) (view x) quiet₁
            (Quiet-trans (view m.1) (view w.1) (view x) quiet₂ quiet₃),
        noted,
      )

  remove_as-Swept :
      (p : OsStr) (s : P.State) (r : Result Bool IoError)
      → Told (λ (e : Entry). e.is_dir) r (view s p)
      → Swept p s (remove_as P p r s).1
  remove_as-Swept p s (ok true) h =
      let (quiet, gone) = law.removes_dir p s in
      (quiet, Removed-Noted _ (P.remove_dir_all p s).0 _ (λ f. not_both _ f h) gone)
  remove_as-Swept p s (ok false) h = as_file-Swept p s (inl h)
  remove_as-Swept p s (err x) h = as_file-Swept p s (inr h)

  remove_entry-Swept : (p : OsStr) (s : P.State) → Swept p s (remove_entry P p s).1
  unfolding remove_entry
  remove_entry-Swept p s =
      let (quiet, told) = law.sees p s in
      let k = P.is_dir p s in
      let (after, noted) = remove_as-Swept p k.1 k.0 told in
      (Quiet-trans (view s) (view k.1) (view (remove_as P p k.0 k.1).1) quiet after, noted)

  entries-Quiet :
      (es : List (Result OsStr IoError)) (s : P.State)
      → Quiet (view s) (view (remove_entries P es s).1)
  unfolding remove_entries
  entries-Quiet [] s = λ p. ((λ g. g), λ g. g)
  entries-Quiet (err e ∷ es) s = entries-Quiet es s
  entries-Quiet (ok q ∷ es) s =
      let t = (remove_entry P q s).1 in
      Quiet-trans (view s) (view t) (view (remove_entries P es t).1) (remove_entry-Swept q s).0
        (entries-Quiet es t)

  entries-Noted :
      (es : List (Result OsStr IoError)) (s : P.State) (p : OsStr)
      → Names es p ⊎ Noted (view s p)
      → Noted (view (remove_entries P es s).1 p)
  unfolding remove_entries
  entries-Noted es s p (inr n) =
      Noted-stays (view s) (view (remove_entries P es s).1) p (entries-Quiet es s) n
  entries-Noted [] s p (inl n) = absurd n
  entries-Noted (err e ∷ es) s p (inl n) = entries-Noted es s p (inl n)
  entries-Noted (ok q ∷ es) s p (inl (inl same)) = entries-Noted es _ p (
      inr (
        subst (λ (x : OsStr). Noted (view (remove_entry P q s).1 x)) same
          (remove_entry-Swept q s).1))
  entries-Noted (ok q ∷ es) s p (inl (inr later)) = entries-Noted es _ p (inl later)

  read-Noted :
      (r : Result (List (Result OsStr IoError)) IoError) (s : P.State) (p : OsStr)
      → Listed r (view s)
      → Noted (view (remove_read P r s).1 p)
  read-Noted (ok es) s p h = entries-Noted es s p (h p)
  read-Noted (err x) s p h = h p

  leftovers-Noted :
      (s : P.State) (p : OsStr) → Noted (view (remove_leftover_placeholders P d s).1 p)
  unfolding remove_leftover_placeholders
  leftovers-Noted s p = read-Noted (P.read_dir d s).0 (P.read_dir d s).1 p (law.lists s).1

-- For calls of `std::fs` that may each fail and otherwise do what their documentation says: after
-- `unmount`, an entry of the directory of the mount point is gone, or it is one about which the system
-- has refused a call, also when the platform refuses to disconnect or to unregister the sync root. The
-- failure to remove a read-only file, or a directory as a file, does not count as a refusal: the code
-- makes a file writable before it removes it and tells the two apart.
pub unmount_sweeps :
    (P : Platform) (view : P.State → OsStr → Entry) (encode_wide : OsStr → List ℕ) (denied : ℕ)
    (h : CfApiHandle) (law : Removes P view h.mountpoint) (s : P.State) (p : OsStr)
    → Noted (view (unmount P encode_wide denied h s).1 p)
unfolding unmount
unmount_sweeps P view encode_wide denied h law s p = leftovers-Noted P view h.mountpoint law _ p
