-- ===== src/Tests/SyncRoot.antt =====
-- A machine whose directory may hold one file, a read-only one after a mount, whose platform refuses to
-- disconnect, and which refuses to remove a file that is in use.
use anymount.Prelude.{
  ℕ, Bool, true, false, ◌≡◌, refl, ap, arith, not, ◌&&◌, some, List, [], ◌∷◌, ok, err, ◌==◌,
  if◌then◌else◌, inl, inr, ◌⊎◌, Bool-cases, false,
}
use anymount.Types.{OsStr}
use anymount.Error.{WindowsError, IoError, io_error, ErrorKind}
use anymount.Mount.{MountBuilder, new_builder, Disk}
use anymount.Cfapi.{Platform, CfApiHandle, mount, unmount, to_wide}
use anymount.Cfapi.Tracked.{Root, nothing, Tracks}
use anymount.Cfapi.Teardown.{Accounted, mount-Accounted}
use anymount.Cfapi.Leftovers.{Entry, Names, Noted, Removes, unmount_sweeps}

record Machine : Type 0 where
  pub root : Root
  pub entry : Entry
  pub busy : Bool

abbrev refused : WindowsError
refused = record { code = 0x8007_0005; message = "access denied" }

abbrev absent : Entry
absent = record { present = false; is_dir = false; readonly = false; refused = false }

-- `a`
abbrev named : OsStr → Bool
named [] = false
named (c ∷ []) = c == 97
named (c ∷ d ∷ cs) = false

abbrev root_view : Machine → Root
root_view m = m.root

abbrev entry_view : Machine → OsStr → Entry
entry_view m p = if named p then m.entry else absent

abbrev denied : IoError
denied = io_error ErrorKind.permission_denied "access denied"

abbrev windows : Platform
windows = record {
  State = Machine;
  get_platform_info = λ m. (ok (record { build = 19045; revision = 0; integration = 0x310 }), m);
  register_sync_root =
      λ path r p m. (ok tt, record m { root = record (m.root) { registered = true } });
  connect_sync_root =
      λ path t m. (ok 7, record m { root = record (m.root) { connection = some 7 } });
  disconnect_sync_root = λ c m. (err refused, m);
  unregister_sync_root =
      λ path m. (ok tt, record m { root = record (m.root) { registered = false } });
  read_dir = λ d m. (ok (ok (97 ∷ []) ∷ []), m);
  is_dir = λ p m. (ok (entry_view m p).is_dir, m);
  readonly = λ p m. (ok (entry_view m p).readonly, m);
  clear_readonly = λ p m.
      (ok tt, if named p then record m { entry = record (m.entry) { readonly = false } } else m);
  remove_dir_all = λ p m.
      if named p && m.entry.is_dir
      then (ok tt, record m { entry = record (m.entry) { present = false } })
      else (err denied, m);
  remove_file = λ p m.
      if named p && not m.entry.is_dir && not m.entry.readonly && not m.busy
      then (ok tt, record m { entry = record (m.entry) { present = false } })
      else if named p && m.busy
      then (err denied, record m { entry = record (m.entry) { refused = true } })
      else (err denied, m);
}

windows-Tracks : (path : List ℕ) → Tracks windows root_view path
windows-Tracks path = record {
  probes = λ m. refl;
  registers = λ r p m. refl;
  connects = λ t m. refl;
  disconnects = λ c m h. refl;
  unregisters = λ m. refl;
  lists = λ d m. refl;
  sees = λ p m. refl;
  asks = λ p m. refl;
  clears = λ p m. ground arith;
  removes_dir = λ p m. ground arith;
  removes_file = λ p m. ground arith;
}

named_a : (p : OsStr) → Names (ok (97 ∷ []) ∷ []) p ⊎ (named p ≡ false)
named_a [] = inr refl
named_a (c ∷ []) = elim (Bool-cases (c == 97)) [
  | inl h ↦ inl (inl (ap (λ (x : ℕ). x ∷ []) (ground (arith, h))))
  | inr h ↦ inr h
]
named_a (c ∷ d ∷ cs) = inr refl

unnamed-Noted : (m : Machine) (p : OsStr) → named p ≡ false → Noted (entry_view m p)
unnamed-Noted m p h = inl (rw h refl)

only_a : (m : Machine) (p : OsStr) → Names (ok (97 ∷ []) ∷ []) p ⊎ Noted (entry_view m p)
only_a m p = elim (named_a p) [ inl n ↦ inl n | inr h ↦ inr (unnamed-Noted m p h) ]

windows-Removes : (d : OsStr) → Removes windows entry_view d
windows-Removes d = record {
  lists = λ m. (λ q. ((λ g. g), λ g. g), λ p. only_a m p);
  sees = λ p m. (λ q. ((λ g. g), λ g. g), refl);
  asks = λ p m. (λ q. ((λ g. g), λ g. g), refl, refl);
  clears =
      λ p m. (λ q. ((λ g. ground (arith, g)), λ g. ground (arith, g)), ground arith, ground arith);
  removes_dir = λ p m. (λ q. ((λ g. ground (arith, g)), λ g. ground (arith, g)), ground arith);
  removes_file = λ p m. (λ q. ((λ g. ground (arith, g)), λ g. ground (arith, g)), ground arith);
}

-- `C:`
abbrev drive : MountBuilder
drive = new_builder (b'C' ∷ b':' ∷ [])

abbrev in_utf16 : OsStr → List ℕ
in_utf16 s = s

abbrev empty : Machine
empty = record { root = nothing; entry = absent; busy = false }

abbrev ready : Disk
ready = record { metadata = ok true; read_dir = ok false }

mount-Accounted_example :
    Accounted windows root_view in_utf16 0x8007_0005 drive
      (mount windows in_utf16 0x8007_0005 ready drive empty)
mount-Accounted_example =
    mount-Accounted windows root_view in_utf16 0x8007_0005 drive
      (windows-Tracks (to_wide in_utf16 drive.mountpoint)) ready empty refl

abbrev handle : CfApiHandle
handle = record { mountpoint = b'C' ∷ b':' ∷ []; connection = 7 }

-- A placeholder that has been read.
abbrev in_use : Machine
in_use = record {
  root = record { registered = true; connection = some 7 };
  entry = record { present = true; is_dir = false; readonly = true; refused = false };
  busy = false;
}

unmount_sweeps_example :
    Noted (entry_view (unmount windows in_utf16 0x8007_0005 handle in_use).1 (97 ∷ []))
unmount_sweeps_example =
    unmount_sweeps windows entry_view in_utf16 0x8007_0005 handle
      (windows-Removes handle.mountpoint) in_use (97 ∷ [])
