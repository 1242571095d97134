-- ===== src/Cfapi/Teardown.antt =====
-- The life of a mount in src/backend/cfapi.rs: what of the sync root is there after `mount`, and what
-- after `unmount`.
use mathlib.Core.Path.{subst}
use anymount.Prelude.{
  sym, ℕ, Bool, true, false, ◌≡◌, ◌⊎◌, inl, inr, refl, ap, ◌∙◌, Option, none, some, List, Result,
  ok, err,
}
use anymount.Types.{OsStr}
use anymount.Error.{WindowsError, context, from_windows}
use anymount.Fs.{FsResult}
use anymount.Mount.{MountBuilder, Disk, check}
use anymount.Cfapi.Defs.{to_wide}
use anymount.Cfapi.Session.{
  caps, registration, policies, callbacks, Platform, PlatformInfo, CfApiHandle, ok_of, first_error,
  probe, from, with_context, register_sync_root, connect_sync_root, finish_mount, mount_registered,
  mount_probed, mount_checked, mount, unmount,
}
use anymount.Cfapi.Tracked.{Root, nothing, Effect, Tracks, leftovers-view}

abbrev pub root_of : Bool → Option ℕ → Root
root_of r c = record { registered = r; connection = c }

-- The outcome of a teardown whose calls answered `d` and `u`: each part that a call succeeded on is
-- gone, and the first error is the one that is reported.
abbrev pub Torn :
    ℕ
    → ℕ
    → Result (Unit {0}) WindowsError
    → Result (Unit {0}) WindowsError
    → FsResult (Unit {0})
    → Root
    → Type 0
Torn denied c (ok d) (ok u) r v = (r ≡ ok tt) × (v ≡ nothing)
Torn denied c (ok d) (err e) r v =
    (r ≡ err (context (from_windows denied e) "unregistering the cfapi sync root"))
    × (v ≡ root_of true none)
Torn denied c (err e) (ok u) r v =
    (r ≡ err (context (from_windows denied e) "disconnecting the cfapi sync root"))
    × (v ≡ root_of false (some c))
Torn denied c (err e) (err second) r v =
    (r ≡ err (context (from_windows denied e) "disconnecting the cfapi sync root"))
    × (v ≡ root_of true (some c))

module _ (P : Platform) (view : P.State → Root) (encode_wide : OsStr → List ℕ) (denied : ℕ) where
  -- What `unmount` makes of a live mount, whatever the two calls answer.
  abbrev pub TearsDown : CfApiHandle → P.State → Type 0
  TearsDown h s =
      let d = P.disconnect_sync_root h.connection s in
      let u = P.unregister_sync_root (to_wide encode_wide h.mountpoint) d.1 in
      let out = unmount P encode_wide denied h s in
      Torn denied h.connection d.0 u.0 out.0 (view out.1)

  -- What is there when `mount` is over.
  abbrev pub Accounted : MountBuilder → FsResult CfApiHandle × P.State → Type 0
  Accounted b (err e, s) =
      (view s ≡ nothing)
      ⊎ ((view s ≡ root_of true none)
          × (before : P.State) × (why : WindowsError) × (P.unregister_sync_root
                (to_wide encode_wide b.mountpoint) before
              ≡ (err why, s)))
  Accounted b (ok h, s) =
      (view s ≡ root_of true (some h.connection))
      × (h.mountpoint ≡ b.mountpoint)
      × ((later : P.State) → view later ≡ view s → TearsDown h later)

torn :
    (denied c : ℕ) (d u : Result (Unit {0}) WindowsError) (v v₁ v₂ : Root)
    → v ≡ root_of true (some c)
    → Effect d v v₁ (λ _. record v { connection = none })
    → Effect u v₁ v₂ (λ _. record v₁ { registered = false })
    → Torn denied c d u
        (first_error
          (with_context "disconnecting the cfapi sync root" (from denied d))
          (with_context "unregistering the cfapi sync root" (from denied u)))
        v₂
unfolding first_error
torn denied c (ok d) (ok u) v v₁ v₂ h hd hu = (
  refl,
  hu
      ∙ ap (λ (x : Root). record x { registered = false })
          (hd ∙ ap (λ (x : Root). record x { connection = none }) h),
)
torn denied c (ok d) (err e) v v₁ v₂ h hd hu =
    (refl, hu ∙ hd ∙ ap (λ (x : Root). record x { connection = none }) h)
torn denied c (err e) (ok u) v v₁ v₂ h hd hu =
    (refl, hu ∙ ap (λ (x : Root). record x { registered = false }) (hd ∙ h))
torn denied c (err e) (err second) v v₁ v₂ h hd hu = (refl, hu ∙ hd ∙ h)

module _ (P : Platform) (view : P.State → Root) (encode_wide : OsStr → List ℕ) (denied : ℕ)
    (b : MountBuilder) (law : Tracks P view (to_wide encode_wide b.mountpoint)) where
  unmount-TearsDown :
      (c : ℕ) (s : P.State)
      → view s ≡ root_of true (some c)
      → TearsDown P view encode_wide denied (record { mountpoint = b.mountpoint; connection = c }) s
  unfolding unmount
  unmount-TearsDown c s h =
      let path = to_wide encode_wide b.mountpoint in
      let d = P.disconnect_sync_root c s in
      let u = P.unregister_sync_root path d.1 in
      let left = leftovers-view P view path law b.mountpoint u.1 in
      subst
        (Torn denied c d.0 u.0 (
          first_error (with_context "disconnecting the cfapi sync root" (from denied d.0))
            (with_context "unregistering the cfapi sync root" (from denied u.0))))
        (sym left)
        (torn denied c d.0 u.0 (view s) (view d.1) (view u.1) h
          (law.disconnects c s (ap (λ (x : Root). x.connection) h)) (law.unregisters d.1))

  abbrev After : FsResult CfApiHandle × P.State → Type 0
  After = Accounted P view encode_wide denied b

  connected :
      (r : Result ℕ WindowsError) (v : Root) (s : P.State)
      → v ≡ root_of true none
      → Effect r v (view s) (λ c. record v { connection = some c })
      → After (
          finish_mount P encode_wide denied b
            (with_context "connecting the cfapi sync root" (from denied r))
            s)
  connected (ok c) v s h e = (
    e ∙ ap (λ (x : Root). record x { connection = some c }) h,
    refl,
    λ later same.
        unmount-TearsDown c later
          (same ∙ e ∙ ap (λ (x : Root). record x { connection = some c }) h),
  )
  connected (err e) v s h k =
      let u = P.unregister_sync_root (to_wide encode_wide b.mountpoint) s in
      cleaned s u.1 u.0 refl (k ∙ h) (law.unregisters s)
    where
      cleaned :
          (before after : P.State) (r : Result (Unit {0}) WindowsError)
          → P.unregister_sync_root (to_wide encode_wide b.mountpoint) before ≡ (r, after)
          → view before ≡ root_of true none
          → Effect r (view before) (view after) (λ _. record (view before) { registered = false })
          → After (err (context (from_windows denied e) "connecting the cfapi sync root"), after)
      cleaned before after (ok u) q g m =
          inl (m ∙ ap (λ (x : Root). record x { registered = false }) g)
      cleaned before after (err why) q g m = inr (m ∙ g, before, why, q)

  registered :
      (r : Result (Unit {0}) WindowsError) (v : Root) (s : P.State)
      → v ≡ nothing
      → Effect r v (view s) (λ _. record v { registered = true })
      → After (
          mount_registered P encode_wide denied b
            (with_context "registering the cfapi sync root" (from denied r))
            s)
  unfolding connect_sync_root
  registered (ok u) v s h e =
      let c = P.connect_sync_root (to_wide encode_wide b.mountpoint) callbacks s in
      connected c.0 (view s) c.1 (e ∙ ap (λ (x : Root). record x { registered = true }) h)
        (law.connects callbacks s)
  registered (err e) v s h k = inl (k ∙ h)

  probed :
      (i : Option PlatformInfo) (s : P.State)
      → view s ≡ nothing
      → After (mount_probed P encode_wide denied b i s)
  unfolding register_sync_root
  probed none s h = inl h
  probed (some info) s h =
      let r =
        P.register_sync_root (to_wide encode_wide b.mountpoint) (registration encode_wide b.fs_name)
          policies s in
      registered r.0 (view s) r.1 h (law.registers (registration encode_wide b.fs_name) policies s)

  checked :
      (r : FsResult (Unit {0})) (s : P.State)
      → view s ≡ nothing
      → After (mount_checked P encode_wide denied b r s)
  unfolding probe
  checked (err e) s h = inl h
  checked (ok u) s h =
      probed (ok_of (P.get_platform_info s).0) (P.get_platform_info s).1 (law.probes s ∙ h)

  -- On a platform whose calls take effect exactly when they succeed, and from a state without the sync
  -- root: a `mount` that fails leaves neither a registration nor a connection, but for a registration
  -- that the platform refused to take back; one that succeeds leaves both. `unmount` then, whatever
  -- has happened in between that kept both, tries to undo both even if the first call fails, and
  -- succeeds exactly if both calls do, or else reports the first that failed; each that did is undone.
  pub mount-Accounted :
      (disk : Disk) (s : P.State)
      → view s ≡ nothing
      → Accounted P view encode_wide denied b (mount P encode_wide denied disk b s)
  unfolding mount
  mount-Accounted disk s h = checked (check disk b caps) s h
