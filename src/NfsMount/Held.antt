-- ===== src/NfsMount/Held.antt =====
-- What the events of src/backend/nfs/local.rs and tcp.rs leave in the system.
use mathlib.Core.Path.{subst}
use anymount.Prelude.{
  ℕ, ◌+◌, ◌-◌, ◌≤◌, Bool, true, false, ◌≡◌, refl, sym, ◌∙◌, Option, none, some, List, [], ◌∷◌, ◌++◌,
  Result, ok, err, arith,
}
use anymount.Error.{IoError}
use anymount.NfsMount.Local.{Event, Removals}

-- The mounts in the kernel, the sockets and their directories, the server's thread, and the flag that
-- lets it answer the MOUNT program.
pub record Held : Type 0 where
  pub mounted : ℕ
  pub socket : ℕ
  pub dir : ℕ
  pub server : Bool
  pub answers_mount : Bool

abbrev pub nothing : Held
nothing = record { mounted = 0; socket = 0; dir = 0; server = false; answers_mount = false }

abbrev pub effected : Option IoError → ℕ
effected none = 1
effected (some e) = 0

abbrev pub refused : Option IoError → ℕ
refused none = 0
refused (some e) = 1

abbrev pub succeeded : Result Bool IoError → ℕ
succeeded (ok true) = 1
succeeded (ok false) = 0
succeeded (err e) = 0

-- A call that is refused changes nothing.
unfoldable pub held_after : Held → Event → Held
held_after h Event.dir_created = record h { dir = h.dir + 1 }
held_after h (Event.dir_removed rc) = record h { dir = h.dir - effected rc }
held_after h (Event.server_started m) = record h { server = true; answers_mount = m }
held_after h Event.mount_closed = record h { answers_mount = false }
held_after h Event.server_joined = record h { server = false }
held_after h Event.socket_bound = record h { socket = h.socket + 1 }
held_after h (Event.socket_removed rc) = record h { socket = h.socket - effected rc }
held_after h Event.socket_restricted = h
held_after h Event.tcp_bound = h
held_after h (Event.mount_called bytes rc) = record h { mounted = h.mounted + effected rc }
held_after h (Event.mount_nfs_ran port path output) = record h {
  mounted = h.mounted + succeeded output;
}
held_after h (Event.unmount_called rc) = record h { mounted = h.mounted - effected rc }
held_after h Event.server_stopped = h

unfoldable pub held : Held → List Event → Held
held h [] = h
held h (e ∷ es) = held (held_after h e) es

held-append : (h : Held) (xs ys : List Event) → held h (xs ++ ys) ≡ held (held h xs) ys
unfolding held
held-append h [] ys = refl
held-append h (x ∷ xs) ys = held-append (held_after h x) xs ys

-- No more than `l` is held, and the server is as `l` says.
abbrev pub Within : Held → Held → Type 0
Within l h =
    (h.mounted ≤ l.mounted)
    × (h.socket ≤ l.socket)
    × (h.dir ≤ l.dir)
    × (h.server ≡ l.server)
    × (h.answers_mount ≡ l.answers_mount)

held_after-Within : (l h : Held) (e : Event) → Within l h → Within (held_after l e) (held_after h e)
unfolding held_after
held_after-Within l h Event.dir_created (m, s, d, v, a) = (m, s, omega arith, v, a)
held_after-Within l h (Event.dir_removed rc) (m, s, d, v, a) = (m, s, omega arith, v, a)
held_after-Within l h (Event.server_started b) (m, s, d, v, a) = (m, s, d, refl, refl)
held_after-Within l h Event.mount_closed (m, s, d, v, a) = (m, s, d, v, refl)
held_after-Within l h Event.server_joined (m, s, d, v, a) = (m, s, d, refl, a)
held_after-Within l h Event.socket_bound (m, s, d, v, a) = (m, omega arith, d, v, a)
held_after-Within l h (Event.socket_removed rc) (m, s, d, v, a) = (m, omega arith, d, v, a)
held_after-Within l h Event.socket_restricted w = w
held_after-Within l h Event.tcp_bound w = w
held_after-Within l h (Event.mount_called bytes rc) (m, s, d, v, a) = (omega arith, s, d, v, a)
held_after-Within l h (Event.mount_nfs_ran port path output) (m, s, d, v, a) =
    (omega arith, s, d, v, a)
held_after-Within l h (Event.unmount_called rc) (m, s, d, v, a) = (omega arith, s, d, v, a)
held_after-Within l h Event.server_stopped w = w

abbrev pub Holds : Held → List Event → Type 0
Holds l log = Within l (held nothing log)

pub then_happens :
    (l : Held) (log : List Event) (e : Event)
    → Holds l log
    → Holds (held_after l e) (log ++ (e ∷ []))
then_happens l log e w =
    let same : held nothing (log ++ (e ∷ [])) ≡ held_after (held nothing log) e =
      unfold held in held-append nothing log (e ∷ []) in
    subst (Within (held_after l e)) (sym same) (held_after-Within l (held nothing log) e w)

pub weaken : (l k : Held) (log : List Event) → Within k l → Holds l log → Holds k log
weaken l k log (m, s, d, v, a) (m₁, s₁, d₁, v₁, a₁) =
    (omega arith, omega arith, omega arith, v₁ ∙ v, a₁ ∙ a)

-- What may be left when these are the answers to the calls that undo.
abbrev pub left : Option IoError → Removals → Held
left unmounted r = record {
  mounted = refused unmounted;
  socket = refused r.remove_file;
  dir = refused r.remove_dir;
  server = false;
  answers_mount = false;
}
