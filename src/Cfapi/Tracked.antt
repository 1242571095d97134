-- ===== src/Cfapi/Tracked.antt =====
-- The sync root of src/backend/cfapi.rs: what the calls of the platform do to it.
use anymount.Prelude.{
  ℕ, Bool, true, false, ◌≡◌, refl, ◌∙◌, Option, none, some, List, [], ◌∷◌, Result, ok, err,
}
use anymount.Types.{OsStr}
use anymount.Error.{IoError, WindowsError}
use anymount.Cfapi.Session.{
  Platform, SyncRegistration, SyncPolicies, CallbackType, make_writable, remove_as, remove_entry,
  remove_entries, remove_read, remove_leftover_placeholders,
}

-- What the machine keeps of a sync root: its registration, and the connection to it.
pub record Root : Type 0 where
  pub registered : Bool
  pub connection : Option ℕ

abbrev pub nothing : Root
nothing = record { registered = false; connection = none }

-- A call that succeeds takes effect, and one that fails has none.
abbrev pub Effect : {A : Type 0} → Result A WindowsError → Root → Root → (A → Root) → Type 0
Effect (ok a) before after done = after ≡ done a
Effect (err e) before after done = after ≡ before

-- What the documentation of the platform says of the calls on the sync root at `path`.
pub record Tracks (P : Platform) (view : P.State → Root) (path : List ℕ) : Type 0 where
  pub probes : (s : P.State) → view (P.get_platform_info s).1 ≡ view s
  pub registers :
      (r : SyncRegistration) (p : SyncPolicies) (s : P.State)
      → let out = P.register_sync_root path r p s in
        Effect out.0 (view s) (view out.1) (λ _. record (view s) { registered = true })
  pub connects :
      (t : List CallbackType) (s : P.State)
      → let out = P.connect_sync_root path t s in
        Effect out.0 (view s) (view out.1) (λ c. record (view s) { connection = some c })
  pub disconnects :
      (c : ℕ) (s : P.State)
      → (view s).connection ≡ some c
      → let out = P.disconnect_sync_root c s in
        Effect out.0 (view s) (view out.1) (λ _. record (view s) { connection = none })
  pub unregisters :
      (s : P.State)
      → let out = P.unregister_sync_root path s in
        Effect out.0 (view s) (view out.1) (λ _. record (view s) { registered = false })
  pub lists : (d : OsStr) (s : P.State) → view (P.read_dir d s).1 ≡ view s
  pub sees : (p : OsStr) (s : P.State) → view (P.is_dir p s).1 ≡ view s
  pub asks : (p : OsStr) (s : P.State) → view (P.readonly p s).1 ≡ view s
  pub clears : (p : OsStr) (s : P.State) → view (P.clear_readonly p s).1 ≡ view s
  pub removes_dir : (p : OsStr) (s : P.State) → view (P.remove_dir_all p s).1 ≡ view s
  pub removes_file : (p : OsStr) (s : P.State) → view (P.remove_file p s).1 ≡ view s

module _ (P : Platform) (view : P.State → Root) (path : List ℕ) (law : Tracks P view path) where
  make_writable-view :
      (p : OsStr) (r : Result Bool IoError) (s : P.State) → view (make_writable P p r s).1 ≡ view s
  make_writable-view p (ok true) s = law.clears p s
  make_writable-view p (ok false) s = refl
  make_writable-view p (err e) s = refl

  remove_file-view :
      (p : OsStr) (s : P.State)
      → let meta = P.readonly p s in
        view (P.remove_file p (make_writable P p meta.0 meta.1).1).1 ≡ view s
  remove_file-view p s =
      law.removes_file p _
      ∙ make_writable-view p (P.readonly p s).0 (P.readonly p s).1
      ∙ law.asks p s

  remove_as-view :
      (p : OsStr) (r : Result Bool IoError) (s : P.State) → view (remove_as P p r s).1 ≡ view s
  remove_as-view p (ok true) s = law.removes_dir p s
  remove_as-view p (ok false) s = remove_file-view p s
  remove_as-view p (err e) s = remove_file-view p s

  remove_entries-view :
      (es : List (Result OsStr IoError)) (s : P.State) → view (remove_entries P es s).1 ≡ view s
  unfolding remove_entries remove_entry
  remove_entries-view [] s = refl
  remove_entries-view (err e ∷ es) s = remove_entries-view es s
  remove_entries-view (ok p ∷ es) s =
      remove_entries-view es _ ∙ remove_as-view p (P.is_dir p s).0 (P.is_dir p s).1 ∙ law.sees p s

  remove_read-view :
      (r : Result (List (Result OsStr IoError)) IoError) (s : P.State)
      → view (remove_read P r s).1 ≡ view s
  remove_read-view (ok es) s = remove_entries-view es s
  remove_read-view (err e) s = refl

  pub leftovers-view :
      (mountpoint : OsStr) (s : P.State)
      → view (remove_leftover_placeholders P mountpoint s).1 ≡ view s
  unfolding remove_leftover_placeholders
  leftovers-view mountpoint s =
      remove_read-view (P.read_dir mountpoint s).0 (P.read_dir mountpoint s).1
      ∙ law.lists mountpoint s
