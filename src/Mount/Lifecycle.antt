-- ===== src/Mount/Lifecycle.antt =====
-- A mount from `MountBuilder::mount` of src/mount.rs to its end.
use mathlib.Core.Path.{subst}
use anymount.Prelude.{
  ℕ, List, Bool, true, false, ◌≡◌, refl, sym, ap, ◌∙◌, ◌⊎◌, inl, inr, ok, err, Bool-cases,
}
use anymount.Error.{FsError, Libc, to_errno}
use anymount.Fs.{Step, FsResult, ◌>>=◌}
use anymount.Mount.Builder.{Backend, auto, fuse, nfs, cf_api, MountBuilder}
use anymount.Mount.Dispatch.{
  Build, has_fuse, has_nfs, has_cfapi, unavailable, Mounted, Backends, Mount, new_mount, auto_mount,
  mount_with, made, mount, drop_mount, unmount,
}

err-ok : {A : Type 0} {e : FsError} {a : A} → err e ≡ ok a → ⊥
err-ok h = cc

-- Compiled in.
abbrev pub Has : Build → Backend → Type 0
Has b auto = ⊥
Has b fuse = has_fuse b ≡ true
Has b nfs = has_nfs b ≡ true
Has b cf_api = has_cfapi b ≡ true

-- What the backend was asked for, if one was.
abbrev pub Asked : Backend → Backend → Type 0
Asked auto k = Unit
Asked fuse k = k ≡ fuse
Asked nfs k = k ≡ nfs
Asked cf_api k = k ≡ cf_api

module _ {W : Type 0} (b : Build) (backends : Backends W) where
  abbrev pub run_backend : Backend → MountBuilder → Step W (FsResult (Mounted W))
  run_backend auto builder w = (err (unavailable auto), w)
  run_backend fuse builder w = backends.mount_fuse builder w
  run_backend nfs builder w = backends.mount_nfs builder w
  run_backend cf_api builder w = backends.mount_cfapi builder w

  -- Either one backend that is compiled in was run, the one asked for if one was, or none was.
  abbrev pub Dispatched : MountBuilder → Backend → W → FsResult (Mounted W) × W → Type 0
  Dispatched builder asked w out =
      ((k : Backend) × Has b k × Asked asked k × (out ≡ run_backend k builder w))
      ⊎ ((e : FsError) × (out ≡ (err e, w))
          × ((c : Libc) → to_errno c e ≡ c.enosys)
          × ((k : Backend) → Asked asked k → Has b k → ⊥))

  nothing_compiled :
      has_fuse b ≡ false → has_nfs b ≡ false → has_cfapi b ≡ false → (k : Backend) → Has b k → ⊥
  nothing_compiled f n c auto h = h
  nothing_compiled f n c fuse h = cc
  nothing_compiled f n c nfs h = cc
  nothing_compiled f n c cf_api h = cc

  not_compiled :
      (asked : Backend) (here : Bool)
      → here ≡ false
      → (Has b asked → here ≡ true)
      → (k : Backend) → k ≡ asked
      → Has b k
      → ⊥
  not_compiled asked here h t k e x =
      let y : here ≡ true = t (subst (λ (j : Backend). Has b j) e x) in cc

  mount_with-Dispatched :
      (builder : MountBuilder) (asked : Backend) (w : W)
      → Dispatched builder asked w (mount_with b backends builder asked w)
  unfolding mount_with auto_mount unavailable to_errno
  mount_with-Dispatched builder auto w = elim (Bool-cases (has_fuse b)) [
    | inl f ↦ rw f (inl (fuse, f, tt, refl))
    | inr f ↦ elim (Bool-cases (has_nfs b)) [
      | inl n ↦ rw (f, n) (inl (nfs, n, tt, refl))
      | inr n ↦ elim (Bool-cases (has_cfapi b)) [
        | inl c ↦ rw (f, n, c) (inl (cf_api, c, tt, refl))
        | inr c ↦ rw (f, n, c) (inr (_, refl, λ l. refl, λ k a. nothing_compiled f n c k))
      ]
    ]
  ]
  mount_with-Dispatched builder fuse w = elim (Bool-cases (has_fuse b)) [
    | inl h ↦ rw h (inl (fuse, h, refl, refl))
    | inr h ↦ rw h (inr (_, refl, λ l. refl, not_compiled fuse (has_fuse b) h (λ x. x)))
  ]
  mount_with-Dispatched builder nfs w = elim (Bool-cases (has_nfs b)) [
    | inl h ↦ rw h (inl (nfs, h, refl, refl))
    | inr h ↦ rw h (inr (_, refl, λ l. refl, not_compiled nfs (has_nfs b) h (λ x. x)))
  ]
  mount_with-Dispatched builder cf_api w = elim (Bool-cases (has_cfapi b)) [
    | inl h ↦ rw h (inl (cf_api, h, refl, refl))
    | inr h ↦ rw h (inr (_, refl, λ l. refl, not_compiled cf_api (has_cfapi b) h (λ x. x)))
  ]

  made-ok :
      (path : List ℕ) (r : FsResult (Mounted W)) (m : Mount W)
      → made path r ≡ ok m
      → (handle : Mounted W) × (r ≡ ok handle) × (m ≡ new_mount handle path)
  made-ok path (err e) m h = absurd (err-ok h)
  made-ok path (ok handle) m h = (handle, refl, cc)

  -- When `mount` succeeds, one backend has run, which is compiled in and is the one asked for if one
  -- was named; the mount is at the mount point that was given. `unmount` has the result and the effect
  -- of one run of the handle's own `unmount`, also with the drop that follows it, and a drop alone has
  -- the same effect.
  pub mount-Lifecycle :
      (builder : MountBuilder) (w w' : W) (m : Mount W)
      → mount b backends builder w ≡ (ok m, w')
      → (k : Backend) × (handle : Mounted W) × Has b k
        × Asked builder.backend k
        × (run_backend k builder w ≡ (ok handle, w'))
        × (m.backend ≡ handle.backend)
        × (m.mountpoint ≡ builder.mountpoint)
        × ((v : W) → unmount m v ≡ handle.unmount v)
        × ((v : W) → (drop_mount m v).1 ≡ (handle.unmount v).1)
  unfolding mount new_mount unmount drop_mount
  mount-Lifecycle builder w w' m h =
      let out = mount_with b backends builder builder.backend w in
      let (handle, ran, e) =
        made-ok builder.mountpoint out.0 m (ap (λ (x : FsResult (Mount W) × W). x.0) h) in
      let after : out.1 ≡ w' = ap (λ (x : FsResult (Mount W) × W). x.1) h in
      let whole : out ≡ (ok handle, w') = λ i. (ran i, after i) in
      elim (mount_with-Dispatched builder builder.backend w) [
        | inl (k, has, asked, eq) ↦ (
          k,
          handle,
          has,
          asked,
          sym eq ∙ whole,
          rw e refl,
          rw e refl,
          λ v. rw e refl,
          λ v. rw e refl,
        )
        | inr (x, eq, number, rest) ↦
            absurd (err-ok (sym (ap (λ (y : FsResult (Mounted W) × W). y.0) eq) ∙ ran))
      ]

  -- When no backend is compiled in that could serve what was asked for, `mount` fails with ENOSYS and
  -- touches nothing.
  pub mount_refused :
      (builder : MountBuilder) (w : W) (c : Libc)
      → ((k : Backend) → Asked builder.backend k → Has b k → ⊥)
      → (e : FsError) × (mount b backends builder w ≡ (err e, w)) × (to_errno c e ≡ c.enosys)
  unfolding mount
  mount_refused builder w c none_fits = elim (mount_with-Dispatched builder builder.backend w) [
    | inl (k, has, asked, out) ↦ absurd (none_fits k asked has)
    | inr (e, out, number, rest) ↦ (e, rw (◌>>=◌, out), number c)
  ]
