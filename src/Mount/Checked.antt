-- ===== src/Mount/Checked.antt =====
-- What the check of src/backend/preflight.rs lets through, and how it refuses.
use anymount.Prelude.{
  true, false, ◌≡◌, ◌↔◌, ◌∙◌, inl, inr, ok, err, arith, Bool-cases, if◌then◌else◌,
}
use anymount.Error.{FsError}
use anymount.Fs.{FsResult}
use anymount.Mount.Builder.{MountBuilder}
use anymount.Mount.Preflight.{
  Caps, Disk, check_mountpoint, check_mountpoint_empty, and_then, is_some, check_options, check,
}

-- The backend can do what is asked of it.
abbrev pub Honors : MountBuilder → Caps → Type 0
Honors b caps =
    (b.allow_other ≡ true → caps.allow_other ≡ true)
    × (is_some b.threads ≡ true → caps.threads ≡ true)
    × (b.nfs_require_local_socket ≡ true → caps.nfs_local_socket ≡ true)
    × (b.auto_unmount ≡ true → caps.auto_unmount ≡ true)

-- The mount point can be used.
abbrev pub Usable : Disk → Caps → Type 0
Usable disk caps =
    (disk.metadata ≡ ok true) × (caps.empty_mountpoint ≡ true → disk.read_dir ≡ ok false)

not-err : {e : FsError} → err e ≡ ok tt → ⊥
not-err h = cc

options-Honors : (b : MountBuilder) (caps : Caps) → check_options b caps ≡ ok tt → Honors b caps
unfolding check_options
options-Honors b caps h =
    (ground (arith, h), ground (arith, h), ground (arith, h), ground (arith, h))

Honors-options : (b : MountBuilder) (caps : Caps) → Honors b caps → check_options b caps ≡ ok tt
unfolding check_options
Honors-options b caps h = ground (arith, h)

-- The two halves of the check before the options.
mountpoint-ok :
    (disk : Disk) (caps : Caps) (rest : FsResult (Unit {0}))
    → and_then (check_mountpoint disk.metadata) (
        and_then
          (if caps.empty_mountpoint then check_mountpoint_empty disk.read_dir else ok tt)
          rest)
      ≡ ok tt
    → Usable disk caps × (rest ≡ ok tt)
unfolding check_mountpoint check_mountpoint_empty
mountpoint-ok disk caps rest h = ((ground (arith, h), ground (arith, h)), ground (arith, h))

ok-mountpoint :
    (disk : Disk) (caps : Caps) (rest : FsResult (Unit {0}))
    → Usable disk caps
    → and_then (check_mountpoint disk.metadata) (
        and_then
          (if caps.empty_mountpoint then check_mountpoint_empty disk.read_dir else ok tt)
          rest)
      ≡ rest
unfolding check_mountpoint check_mountpoint_empty
ok-mountpoint disk caps rest (h, e) = elim (Bool-cases caps.empty_mountpoint) [
  | inl must ↦ rw (h, must, e must)
  | inr need_not ↦ rw (h, need_not)
]

-- The check passes exactly if the mount point is a directory, empty where the backend needs that, and
-- each of the four options that is set is one that the backend can honor.
pub check_iff :
    (disk : Disk) (b : MountBuilder) (caps : Caps)
    → (check disk b caps ≡ ok tt) ↔ (Usable disk caps × Honors b caps)
unfolding check
check_iff disk b caps = (
  λ h.
      (let (usable, options) = mountpoint-ok disk caps (check_options b caps) h in
        (usable, options-Honors b caps options)),
  λ u. ok-mountpoint disk caps (check_options b caps) u.0 ∙ Honors-options b caps u.1,
)
