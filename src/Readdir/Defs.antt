-- ===== src/Readdir/Defs.antt =====
-- src/backend/readdir.rs. The numbers are u64; a sum that passes 2^64 wraps, as in a release build.
use anymount.Prelude.{ℕ, zero, suc, ◌+◌, ◌-◌, ◌%◌, ◌^◌, Bool, true, false, Option, none, some}
use anymount.Prelude.{List, [], ◌∷◌, ok, err, ◌==◌, if◌then◌else◌}
use anymount.Types.{Ino, OsStr, FileKind, directory, DirEntry}
use anymount.Fs.{ReadOnlyFs, Step, pure, ◌>>=◌, FsResult}

abbrev pub dot : ℕ
dot = 1

abbrev pub dotdot : ℕ
dotdot = 2

-- `saturating_sub`
unfoldable pub trait_offset : ℕ → ℕ
trait_offset resume_after = resume_after - dotdot

unfoldable pub for_entry : ℕ → ℕ
for_entry offset = (offset + dotdot + 1) % 2 ^ 64

pub data Dots : Type 0 where
  synthesize omit : Dots

pub data Sink : Type 0 where
  accepted full : Sink

pub record Entry : Type 0 where
  pub ino : Ino
  pub name : OsStr
  pub kind : FileKind
  pub cookie : ℕ

-- The names `.` and `..`.
abbrev pub dot_name : OsStr
dot_name = b'.' ∷ []

abbrev pub dotdot_name : OsStr
dotdot_name = b'.' ∷ b'.' ∷ []

-- What `emit` returns with the sink's own state: `Ok(eof)` or an error. `none` is no value of the
-- source: the pages have not ended within the fuel.
abbrev pub Emitted : Type 0 → Type 0
Emitted T = Option (FsResult Bool) × T

-- `fs.lookup(dir, "..").map_or(dir, |a| a.ino)`
unfoldable pub parent_of : (F : ReadOnlyFs) → Ino → Step F.State Ino
parent_of F dir = do
  found ← F.lookup dir dotdot_name
  pure (elim found [ ok a ↦ a.ino | err e ↦ dir ])

module _ (F : ReadOnlyFs) {T : Type 0} (sink : Entry → T → Step F.State (Sink × T)) where
  -- `for entry in &page`: whether the sink was full, and the offset behind the last entry taken.
  unfoldable pub emit_page : List DirEntry → ℕ → T → Step F.State (Bool × ℕ × T)
  emit_page [] offset t = pure (false, offset, t)
  emit_page (e ∷ page) offset t = do
    (answer, t') ←
        sink (record { ino = e.ino; name = e.name; kind = e.kind; cookie = for_entry offset }) t
    (elim answer [
      | full ↦ pure (true, offset, t')
      | accepted ↦ emit_page page ((offset + 1) % 2 ^ 64) t'
    ])

  -- The `loop` over pages, one round for each unit of fuel.
  unfoldable pub emit_pages : ℕ → Ino → ℕ → T → Step F.State (Emitted T)
  emit_pages zero dir offset t = pure (none, t)
  emit_pages (suc fuel) dir offset t = do
    page ← F.readdir dir offset
    (elim page [
      | err e ↦ pure (some (err e), t)
      | ok [] ↦ pure (some (ok true), t)
      | ok (e ∷ es) ↦ do
        (stopped, offset', t') ← emit_page (e ∷ es) offset t
        (elim stopped [
          | true ↦ pure (some (ok false), t')
          | false ↦ emit_pages fuel dir offset' t'
        ])
    ])

  -- `cookie == DOT`: offer `..`, then go on to the pages.
  unfoldable pub emit_dotdot : ℕ → Ino → ℕ → T → Step F.State (Emitted T)
  emit_dotdot fuel dir cookie t =
      if cookie == dot
      then (do
        parent ← parent_of F dir
        (answer, t') ←
            sink (record { ino = parent; name = dotdot_name; kind = directory; cookie = dotdot }) t
        (elim answer [
          | full ↦ pure (some (ok false), t')
          | accepted ↦ emit_pages fuel dir (trait_offset dotdot) t'
        ]))
      else emit_pages fuel dir (trait_offset cookie) t

  -- `cookie == 0`: offer `.`, then go on to `..`.
  unfoldable pub emit_dot : ℕ → Ino → ℕ → T → Step F.State (Emitted T)
  emit_dot fuel dir cookie t =
      if cookie == 0
      then (do
        (answer, t') ←
            sink (record { ino = dir; name = dot_name; kind = directory; cookie = dot }) t
        (elim answer [
          | full ↦ pure (some (ok false), t')
          | accepted ↦ emit_dotdot fuel dir dot t'
        ]))
      else emit_dotdot fuel dir cookie t

  unfoldable pub emit : ℕ → Ino → ℕ → Dots → T → Step F.State (Emitted T)
  emit fuel dir resume_after synthesize t = emit_dot fuel dir resume_after t
  emit fuel dir resume_after omit t = emit_pages fuel dir (trait_offset resume_after) t
