-- ===== src/NfsMount/LocalEnds.antt =====
-- What an attempt on the local socket, in src/backend/nfs/local.rs, and the steps of a teardown leave.
use anymount.Prelude.{
  ℕ, ◌+◌, ◌-◌, ◌≤◌, Bool, true, false, ◌≡◌, refl, Option, none, some, List, [], ◌∷◌, ◌++◌, ok, err,
  inl, inr, Bool-cases, length, ltb, arith,
}
use anymount.Error.{IoError}
use anymount.Fs.{FsResult}
use anymount.Mount.{MountBuilder}
use anymount.NfsMount.Args.{sun_path_max}
use anymount.NfsMount.Args as Args
use anymount.NfsMount.Local.{
  take_down, socket_dir_remove, mount_args, finish_local, call_mount, verified, serve_local,
  mount_in, socket_path, restrict_socket, bind_socket, create_then, remove_on_error, Event,
  LocalEnv, UnmountEnv, Removals, NfsHandle, Transport, mount_local,
}
use anymount.NfsMount.Held.{
  Held, nothing, effected, refused, held_after, Holds, weaken, then_happens, left,
}

abbrev with_dir : ℕ → ℕ → Bool → Held
with_dir mounts sockets serving = record {
  mounted = mounts;
  socket = sockets;
  dir = 1;
  server = serving;
  answers_mount = false;
}

-- What a handle adds to what was there before.
abbrev pub owned : Held → Bool → Held
owned base true = record {
  mounted = base.mounted + 1;
  socket = base.socket + 1;
  dir = base.dir + 1;
  server = true;
  answers_mount = false;
}
owned base false = record {
  mounted = base.mounted + 1;
  socket = base.socket;
  dir = base.dir;
  server = true;
  answers_mount = false;
}

-- What is held at the end, by the result: `base` was there before, and `most` is what a failure may leave.
abbrev pub Ends : Transport → Held → Held → FsResult NfsHandle × List Event → Type 0
Ends via base most (err e, log) = Holds most log
Ends via base most (ok handle, log) =
    Holds (owned base handle.socket_dir) log × (handle.transport ≡ via)

-- The call is not made for a path that holds a NUL.
abbrev pub done : Bool → Option IoError → ℕ
done true rc = 0
done false rc = effected rc

undone : (nul : Bool) (a u : Option IoError) → done nul a - done nul u ≤ refused u
undone true a u = omega arith
undone false none none = omega arith
undone false (some e) u = omega arith
undone false none (some e) = omega arith

done_once : (nul : Bool) (a : Option IoError) → done nul a ≤ 1
done_once true a = omega arith
done_once false none = omega arith
done_once false (some e) = omega arith

pub kept_or_gone : (a : Option IoError) → 1 - effected a ≤ refused a
kept_or_gone none = omega arith
kept_or_gone (some e) = omega arith

pub take_down-Holds :
    (l : Held) (nul : Bool) (u : UnmountEnv) (log : List Event)
    → Holds l log
    → Holds (record l { mounted = l.mounted - done nul u.rc }) (take_down nul u log).1
unfolding take_down held_after
take_down-Holds l true u log w =
    weaken l _ log (omega arith, omega arith, omega arith, refl, refl) w
take_down-Holds l false u log w = then_happens l log (Event.unmount_called u.rc) w

pub stopped-Holds :
    (l : Held) (log : List Event)
    → Holds l log
    → Holds
        (record l { server = false })
        ((log ++ (Event.server_stopped ∷ [])) ++ (Event.server_joined ∷ []))
unfolding held_after
stopped-Holds l log w =
    then_happens l (log ++ (Event.server_stopped ∷ [])) Event.server_joined
      (then_happens l log Event.server_stopped w)

pub removed-Holds :
    (l : Held) (r : Removals) (log : List Event)
    → Holds l log
    → Holds
        (record l {
          socket = l.socket - effected r.remove_file;
          dir = l.dir - effected r.remove_dir;
        })
        (socket_dir_remove r log).1
unfolding socket_dir_remove held_after
removed-Holds l r log w =
    then_happens _ _ (Event.dir_removed r.remove_dir)
      (then_happens l log (Event.socket_removed r.remove_file) w)

module _ (b : MountBuilder) (env : LocalEnv) where
  -- What a failure inside the directory may leave.
  abbrev inside : Held
  inside = with_dir (refused env.unmount.rc) 1 false

  finish_local-Ends :
      (r : FsResult (Unit {0})) (log : List Event)
      → Holds (with_dir (done env.interior_nul env.mount_rc) 1 true) log
      → Ends Transport.local_socket nothing inside (finish_local b env r log)
  finish_local-Ends (err e) log w =
      weaken _ inside _
        (undone env.interior_nul env.mount_rc env.unmount.rc, omega arith, omega arith, refl, refl)
        (stopped-Holds _ _ (take_down-Holds _ env.interior_nul env.unmount log w))
  finish_local-Ends (ok u) log w = (
    weaken _ _ log (done_once env.interior_nul env.mount_rc, omega arith, omega arith, refl, refl)
        w,
    refl,
  )

  call_mount-Holds :
      (l : Held) (log : List Event)
      → Holds l log
      → Holds
          (record l { mounted = l.mounted + done env.interior_nul env.mount_rc })
          (call_mount b env log).1
  unfolding call_mount mount_args
  call_mount-Holds l log w = elim (Bool-cases env.interior_nul) [
    | inl nul ↦ rw nul (weaken l _ log (omega arith, omega arith, omega arith, refl, refl) w)
    | inr clean ↦ rw clean (
        unfold held_after in
        then_happens l log (Event.mount_called (Args.encode (mount_args b env)) env.mount_rc) w)
  ]

  serve_local-Ends :
      (log : List Event)
      → Holds (with_dir 0 1 false) log
      → Ends Transport.local_socket nothing inside (serve_local b env log)
  unfolding held_after
  serve_local-Ends log w =
      let start = log ++ (Event.server_started false ∷ []) in
      finish_local-Ends (verified env (call_mount b env start).0) (call_mount b env start).1 (
        weaken _ _ _ (omega arith, omega arith, omega arith, refl, refl)
          (call_mount-Holds (with_dir 0 1 true) start
            (then_happens (with_dir 0 1 false) log (Event.server_started false) w)))

  mount_in-Ends :
      (log : List Event)
      → Holds (with_dir 0 0 false) log
      → Ends Transport.local_socket nothing inside (mount_in b env log)
  unfolding mount_in
  mount_in-Ends log w = elim (Bool-cases (ltb sun_path_max (length (socket_path env.suffix)))) [
    | inl long ↦ rw long (empty log w)
    | inr fits ↦ rw fits (binding env.bind)
  ]
    where
      empty : (l : List Event) → Holds (with_dir 0 0 false) l → Holds inside l
      empty l h = weaken _ inside l (omega arith, omega arith, omega arith, refl, refl) h

      restricting :
          (o : Option IoError) (l : List Event)
          → Holds (with_dir 0 1 false) l
          → Ends Transport.local_socket nothing inside (restrict_socket b env o l)
      restricting (some e) l h =
          weaken _ inside l (omega arith, omega arith, omega arith, refl, refl) h
      restricting none l h =
          serve_local-Ends (l ++ (Event.socket_restricted ∷ []))
            (unfold held_after in then_happens (with_dir 0 1 false) l Event.socket_restricted h)

      binding :
          (o : Option IoError)
          → Ends Transport.local_socket nothing inside (bind_socket b env o log)
      binding (some e) = empty log w
      binding none =
          restricting env.set_permissions (log ++ (Event.socket_bound ∷ []))
            (unfold held_after in then_happens (with_dir 0 0 false) log Event.socket_bound w)

  pub mount_local-Ends :
      (log : List Event)
      → Holds nothing log
      → Ends Transport.local_socket nothing
          (left env.unmount.rc env.removals)
          (mount_local b env log)
  unfolding mount_local held_after
  mount_local-Ends log w = creating env.create_dir
    where
      removing :
          (out : FsResult NfsHandle × List Event)
          → Ends Transport.local_socket nothing inside out
          → Ends Transport.local_socket nothing
              (left env.unmount.rc env.removals)
              (remove_on_error env.removals out.0 out.1)
      removing (err e, l) h =
          weaken _ _ _
            (
              omega arith,
              kept_or_gone env.removals.remove_file,
              kept_or_gone env.removals.remove_dir,
              refl,
              refl,
            )
            (removed-Holds inside env.removals l h)
      removing (ok handle, l) h = h

      creating :
          (o : Option IoError)
          → Ends Transport.local_socket nothing
              (left env.unmount.rc env.removals)
              (create_then b env o log)
      creating (some e) = weaken _ _ log (omega arith, omega arith, omega arith, refl, refl) w
      creating none = removing (mount_in b env (log ++ (Event.dir_created ∷ []))) (
          mount_in-Ends (log ++ (Event.dir_created ∷ []))
            (then_happens nothing log Event.dir_created w))
