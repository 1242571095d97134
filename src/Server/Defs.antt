-- ===== src/Server/Defs.antt =====
-- src/backend/nfs/server.rs, with the two program numbers of src/backend/nfs/mod.rs, and with
-- `nfs-tcp` on.
use anymount.Prelude.{ℕ, Bool, true, false, ◌&&◌, Option, none, some, List, [], ◌∷◌}
use anymount.Prelude.{Result, ok, err, ◌++◌, length, leb, ◌==◌, if◌then◌else◌}
use anymount.Error.{ErrorKind, IoError}
use anymount.Fs.{ReadOnlyFs, Step, pure, ◌>>=◌}
use anymount.Stream.{Stream, Output}
use anymount.Xdr.{Reader, new_reader}
use anymount.Handle.{FileHandle3, ExportSecret}
use anymount.Rpc.{ProcOutcome, CallHeader, HeaderOutcome, call, bad_rpcvers, malformed}
use anymount.Rpc.{read_message, write_message, read_call_header, rpc_mismatch_reply, build_reply}
use anymount.Rpc.{prog_unavail_reply, prog_mismatch_reply}
use anymount.NfsProto.{Ctx}
use anymount.NfsProto as NfsProto
use anymount.MountProto as MountProto

abbrev pub nfs_prog : ℕ
nfs_prog = 100003

abbrev pub mount_prog : ℕ
mount_prog = 100005

abbrev pub max_connections : ℕ
max_connections = 16

-- `serve_mount` is the value that a load of the flag gives while one message is handled. It is only
-- ever cleared, and a second guard reads it after the first has read `false`.
pub record Config : Type 0 where
  pub serve_mount : Bool
  pub export : ExportSecret

-- `none` when the fuel of a directory listing has run out.
abbrev pub answer_with : ℕ → Option ProcOutcome → Option (Option (List ℕ))
answer_with xid none = none
answer_with xid (some outcome) = some (some (build_reply xid outcome))

abbrev pub replied : {S : Type 0} → List ℕ → Step S (Option (Option (List ℕ)))
replied bytes = pure (some (some bytes))

abbrev pub is_timeout : ErrorKind → Bool
is_timeout ErrorKind.would_block = true
is_timeout ErrorKind.timed_out = true
is_timeout k = false

module _ (F : ReadOnlyFs) (fuel : ℕ) (handle : FileHandle3) where
  unfoldable pub call_nfs : CallHeader → Reader → Step F.State (Option (Option (List ℕ)))
  call_nfs c r = do
    outcome ← NfsProto.dispatch F (record { handle = handle; fsid = 1 }) fuel c.proc r
    pure (answer_with c.xid outcome)

  -- `match (call.prog, call.vers)`
  unfoldable pub route : Config → CallHeader → Reader → Step F.State (Option (Option (List ℕ)))
  route config c r =
      if (c.prog == mount_prog) && ((c.vers == 3) && config.serve_mount)
      then replied (build_reply c.xid (MountProto.dispatch c.proc r config.export handle))
      else if (c.prog == mount_prog) && config.serve_mount
      then replied (prog_mismatch_reply c.xid)
      else if c.prog == mount_prog
      then replied (prog_unavail_reply c.xid)
      else if (c.prog == nfs_prog) && (c.vers == 3)
      then call_nfs c r
      else if c.prog == nfs_prog
      then replied (prog_mismatch_reply c.xid)
      else replied (prog_unavail_reply c.xid)

  unfoldable pub handle_outcome :
      Config → HeaderOutcome × Reader → Step F.State (Option (Option (List ℕ)))
  handle_outcome config (malformed, r) = pure (some none)
  handle_outcome config (bad_rpcvers xid, r) = replied (rpc_mismatch_reply xid)
  handle_outcome config (call c, r) = route config c r

  unfoldable pub handle_message : Config → List ℕ → Step F.State (Option (Option (List ℕ)))
  handle_message config body = handle_outcome config (read_call_header (new_reader body))

-- What one round of `serve_connection` sees of the shared flags.
pub record Seen : Type 0 where
  pub stop : Bool
  pub config : Config

-- How `serve_connection` ends: it returns, or the rounds are over (`pending`), or the fuel of a
-- listing was not enough.
pub data Ended : Type 0 where
  returned pending starved : Ended

module _ (F : ReadOnlyFs) (fuel : ℕ) (handle : FileHandle3) where
  -- The `loop`, one round for each element of the list.
  unfoldable pub serve_connection : List Seen → Stream → Output → Step F.State (Ended × Output)
  serve_connection [] s o = pure (pending, o)
  serve_connection (seen ∷ rounds) s o = elim seen.stop [
    | true ↦ pure (returned, o)
    | false ↦
        (let (message, s') = read_message s in
          elim message [
            | ok none ↦ pure (returned, o)
            | err e ↦ elim (is_timeout e.kind) [
              | true ↦ serve_connection rounds s' o
              | false ↦ pure (returned, o)
            ]
            | ok (some body) ↦ do
              reply ← handle_message F fuel handle seen.config body
              (elim reply [
                | none ↦ pure (starved, o)
                | some none ↦ pure (returned, o)
                | some (some bytes) ↦
                    (let (sent, o') = write_message bytes o in
                      elim sent [
                        | err e ↦ pure (returned, o')
                        | ok u ↦ serve_connection rounds s' o'
                      ])
              ])
          ])
  ]

-- What one round of the accept loop meets: the stop flag, the workers that have finished, and what
-- `accept_conn` would give.
pub record Round : Type 0 where
  pub stop : Bool
  pub is_finished : ℕ → Bool
  pub accept_conn : Result ℕ IoError

-- `workers.retain(|w| !w.is_finished())`
unfoldable pub retain_running : (ℕ → Bool) → List ℕ → List ℕ
retain_running is_finished [] = []
retain_running is_finished (w ∷ ws) =
    let rest = retain_running is_finished ws in if is_finished w then rest else w ∷ rest

-- One round on the workers; a connection is named by a number.
unfoldable pub accept_round : Round → List ℕ → List ℕ
accept_round round workers =
    if leb max_connections (length workers)
    then workers
    else elim round.accept_conn [ ok conn ↦ workers ++ (conn ∷ []) | err e ↦ workers ]

-- The loop of `run`, with the workers that are joined at its end.
unfoldable pub run : List Round → List ℕ → List ℕ
run [] workers = workers
run (round ∷ rounds) workers = elim round.stop [
  | true ↦ workers
  | false ↦ run rounds (accept_round round (retain_running round.is_finished workers))
]
