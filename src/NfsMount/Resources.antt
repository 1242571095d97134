-- ===== src/NfsMount/Resources.antt =====
-- What an attempt to mount, in src/backend/nfs/mod.rs and its two transports, holds when it is over.
use mathlib.Core.Path.{subst}
use anymount.Prelude.{
  ℕ, ◌+◌, ◌-◌, Bool, true, false, ◌≡◌, refl, ◌∙◌, sym, Option, none, some, List, [], ◌∷◌, ◌++◌,
  Result, ok, err, arith,
}
use anymount.Error.{FsError, IoError}
use anymount.Fs.{FsResult}
use anymount.Mount.{MountBuilder, Disk, check}
use anymount.NfsMount.Local.{
  take_down, remove_any, Event, LocalEnv, UnmountEnv, Removals, NfsHandle, Transport, mount_local,
  unmount_handle,
}
use anymount.Handle.{export_from_secret}
use anymount.NfsMount.Tcp.{
  export_path, finish_tcp, serve_tcp, bind_tcp, outcome_of, fall_back, refuse_or_fall_back,
  mount_checked, caps, TcpEnv, mount_tcp, mount,
}
use anymount.NfsMount.Held.{
  Held, nothing, refused, succeeded, held_after, held, Holds, weaken, then_happens, left,
}
use anymount.NfsMount.LocalEnds.{
  owned, Ends, done, kept_or_gone, take_down-Holds, stopped-Holds, removed-Holds, mount_local-Ends,
}

-- A directory that a failed mount on the local socket leaves, and nothing that runs.
module _ (b : MountBuilder) (env : TcpEnv) (base : Held) (idle : base.server ≡ false)
    (quiet : base.answers_mount ≡ false) where
  abbrev running : ℕ → Bool → Held
  running mounts answers = record base {
    mounted = base.mounted + mounts;
    server = true;
    answers_mount = answers;
  }

  finish_tcp-Ends :
      (o : Result Bool IoError) (l : List Event)
      → Holds (running (succeeded o) false) l
      → Ends Transport.tcp base base (finish_tcp b (outcome_of o) l)
  finish_tcp-Ends (err e) l h =
      weaken _ base _ (omega arith, omega arith, omega arith, sym idle, sym quiet)
        (stopped-Holds _ l h)
  finish_tcp-Ends (ok false) l h =
      weaken _ base _ (omega arith, omega arith, omega arith, sym idle, sym quiet)
        (stopped-Holds _ l h)
  finish_tcp-Ends (ok true) l h = (h, refl)

  mount_tcp-Ends :
      (log : List Event) → Holds base log → Ends Transport.tcp base base (mount_tcp b env log)
  unfolding mount_tcp held_after
  mount_tcp-Ends log w = binding env.bind
    where
      serving :
          (p : Result ℕ IoError) (l : List Event)
          → Holds base l
          → Ends Transport.tcp base base (serve_tcp b env p l)
      serving (err e) l h = h
      serving (ok port) l h =
          (let path = export_path (export_from_secret env.export_secret) b.fs_name in
            let l₁ = l ++ (Event.server_started true ∷ []) in
            let l₂ = l₁ ++ (Event.mount_nfs_ran port path env.output ∷ []) in
            finish_tcp-Ends env.output (l₂ ++ (Event.mount_closed ∷ [])) (
              then_happens _ l₂ Event.mount_closed (
                then_happens _ l₁ (Event.mount_nfs_ran port path env.output)
                  (then_happens base l (Event.server_started true) h))))

      binding : (o : Option IoError) → Ends Transport.tcp base base (bind_tcp b env o log)
      binding (some e) = w
      binding none =
          serving env.local_port (log ++ (Event.tcp_bound ∷ []))
            (then_happens base log Event.tcp_bound w)

-- What may be left when a handle has been taken down: what was there before, and what these calls
-- refused to undo.
abbrev pub after_unmount : Held → Bool → UnmountEnv → Removals → Held
after_unmount base nul u r = record {
  mounted = base.mounted + (1 - done nul u.rc);
  socket = base.socket + refused r.remove_file;
  dir = base.dir + refused r.remove_dir;
  server = false;
  answers_mount = false;
}

unmount_handle-Holds :
    (base : Held) (nul : Bool) (u : UnmountEnv) (r : Removals) (handle : NfsHandle)
    (log : List Event)
    → Holds (owned base handle.socket_dir) log
    → Holds (after_unmount base nul u r) (unmount_handle nul u r handle log).1
unfolding unmount_handle
unmount_handle-Holds base nul u r handle log w = removing handle.socket_dir w
  where
    taken :
        (d : Bool)
        → Holds (owned base d) log
        → Holds
            (record (owned base d) {
              mounted = (owned base d).mounted - done nul u.rc;
              server = false;
            })
            (((take_down nul u log).1 ++ (Event.server_stopped ∷ [])) ++ (Event.server_joined ∷ []))
    taken d h = stopped-Holds _ _ (take_down-Holds _ nul u log h)

    removing :
        (d : Bool)
        → Holds (owned base d) log
        → Holds
            (after_unmount base nul u r)
            (remove_any d r (
              ((take_down nul u log).1 ++ (Event.server_stopped ∷ []))
              ++ (Event.server_joined ∷ []))).1
    removing false h =
        weaken _ _ _ (omega arith, omega arith, omega arith, refl, refl) (taken false h)
    removing true h =
        weaken _ _ _
          (
            omega arith,
            omega (arith, kept_or_gone r.remove_file),
            omega (arith, kept_or_gone r.remove_dir),
            refl,
            refl,
          )
          (removed-Holds _ r _ (taken true h))

-- What was there when the transport of a handle was tried.
abbrev pub before : LocalEnv → Transport → Held
before env Transport.local_socket = nothing
before env Transport.tcp = left env.unmount.rc env.removals

-- What is left behind, by the result of an attempt.
abbrev pub Settled : MountBuilder → LocalEnv → FsResult NfsHandle × List Event → Type 0
Settled b env (err e, log) = Holds (left env.unmount.rc env.removals) log
Settled b env (ok handle, log) =
    (b.nfs_require_local_socket ≡ true → handle.transport ≡ Transport.local_socket)
    × ((held nothing log).answers_mount ≡ false)
    × ((nul : Bool) (u : UnmountEnv) (r : Removals)
        → Holds (after_unmount (before env handle.transport) nul u r)
            (unmount_handle nul u r handle log).1)

owned_quiet : (base : Held) (d : Bool) → (owned base d).answers_mount ≡ false
owned_quiet base false = refl
owned_quiet base true = refl

settled :
    (b : MountBuilder) (env : LocalEnv) (via : Transport) (out : FsResult NfsHandle × List Event)
    → (b.nfs_require_local_socket ≡ true → via ≡ Transport.local_socket)
    → Ends via (before env via) (left env.unmount.rc env.removals) out
    → Settled b env out
settled b env via (err e, log) t h = h
settled b env via (ok handle, log) t (h, is_via) = (
  λ must. is_via ∙ t must,
  h.4 ∙ owned_quiet (before env via) handle.socket_dir,
  λ nul u r.
      subst
        (λ (x : Transport).
          Holds (after_unmount (before env x) nul u r) (unmount_handle nul u r handle log).1)
        (sym is_via) (unmount_handle-Holds (before env via) nul u r handle log h),
)

-- An attempt to mount, on either transport and with the fallback, whatever the system answers on the
-- way. When it fails, no server thread runs, the MOUNT program is not answered, and nothing else is
-- left but what the system refused to undo: a mount only if it refused the unmount, a socket or a
-- directory only if it refused its removal, one of each at most. When it succeeds, the MOUNT program is
-- no longer answered and the mount is on the local socket if that is required; once the handle has been
-- taken down, the server has stopped, and what is left is at most what an attempt on the local socket
-- left before a fallback and, beyond it, what the system then refused to undo, or the mount if the path
-- holds a NUL. A server that is joined has ended, and `mount_nfs` mounts just when it exits with success.
pub mount-Settled :
    (disk : Disk) (local : LocalEnv) (over_tcp : TcpEnv) (b : MountBuilder)
    → Settled b local (mount disk local over_tcp b [])
unfolding mount held
mount-Settled disk local over_tcp b = checking (check disk b caps)
  where
    none_left : Holds (left local.unmount.rc local.removals) []
    none_left = (omega arith, omega arith, omega arith, refl, refl)

    refusing :
        (e : FsError) (log : List Event)
        → Holds (left local.unmount.rc local.removals) log
        → (must : Bool) → b.nfs_require_local_socket ≡ must
        → Settled b local (refuse_or_fall_back must b over_tcp e log)
    refusing e log h true q = h
    refusing e log h false q =
        settled b local Transport.tcp (mount_tcp b over_tcp log) (λ must. cc)
          (mount_tcp-Ends b over_tcp (left local.unmount.rc local.removals) refl refl log h)

    falling :
        (out : FsResult NfsHandle × List Event)
        → Ends Transport.local_socket nothing (left local.unmount.rc local.removals) out
        → Settled b local (fall_back b over_tcp out.0 out.1)
    falling (ok handle, log) h =
        settled b local Transport.local_socket (ok handle, log) (λ must. refl) h
    falling (err e, log) h = refusing e log h b.nfs_require_local_socket refl

    checking : (r : FsResult (Unit {0})) → Settled b local (mount_checked b local over_tcp r [])
    checking (err e) = none_left
    checking (ok u) =
        falling (mount_local b local [])
          (mount_local-Ends b local [] (omega arith, omega arith, omega arith, refl, refl))
