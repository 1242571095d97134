-- ===== src/MemFs/Handles.antt =====
-- The open files of examples/memfs.rs over the calls of a client.
use anymount.Prelude.{
  ℕ, suc, ◌+◌, ◌-◌, ◌%◌, ◌^◌, ◌<◌, ◌≤◌, ◌≡◌, ◌≢◌, refl, sym, ap, ◌∙◌, false, min, some,
}
use anymount.Prelude.{
  List, [], ◌∷◌, ok, err, length, take, drop, arith, All, length-take, length-drop, take-min,
  drop-min,
}
use anymount.Prelude.{inl, inr, ◌⊎◌, Bool-cases}
use anymount.Types.{Ino, FileHandle, Owner}
use anymount.Error.{invalid_argument}
use anymount.Fs.{FsResult}
use anymount.Fs.Contract.{slice}
use anymount.MemFs.Defs.{
  Node, dir, file, Tree, State, get, remove, insert, node, open_node, open_file, read_at, release,
}
use anymount.MemFs.Tables.{
  get-insert, get-insert_ne, get-remove, get-remove_ne, Below, Below-insert, Below-remove,
}

-- The calls that touch the open files.
pub data Call : Type 0 where
  open_call : Ino → Call
  read_call : FileHandle → ℕ → List ℕ → Call
  release_call : FileHandle → Call

module _ (owner : Owner) (t : Tree) where
  unfoldable pub run_call : Call → State → State
  run_call (open_call ino) s = (open_file owner t ino s).1
  run_call (read_call fh offset buf) s = (read_at owner t fh offset buf s).1
  run_call (release_call fh) s = (release owner t fh s).1

  unfoldable pub run_calls : List Call → State → State
  run_calls [] s = s
  run_calls (c ∷ cs) s = run_calls cs (run_call c s)

-- The lock is good, and the handles in use are below the next one.
pub record Fresh (s : State) : Type 0 where
  pub clean : s.poisoned ≡ false
  pub below : Below s.next_handle s.open_files

abbrev pub Spares : FileHandle → Call → Type 0
Spares fh (open_call ino) = Unit
Spares fh (read_call h offset buf) = Unit
Spares fh (release_call h) = h ≢ fh

-- What a call may do to the state; `room` says that the handles have not run out.
abbrev Grows : State → State → Type 0
Grows s s' = (s.next_handle ≤ s'.next_handle) × (s'.next_handle ≤ s.next_handle + 1)

module _ (owner : Owner) (t : Tree) where
  -- An opened file has the next handle.
  pub opened :
      (ino : Ino) (bytes : List ℕ) (s : State)
      → node owner t ino ≡ ok (file bytes)
      → s.poisoned ≡ false
      → s.next_handle + 1 < 2 ^ 64
      → open_file owner t ino s ≡ (
        ok s.next_handle,
        record s {
          open_files = insert s.next_handle ino s.open_files;
          next_handle = suc s.next_handle;
        },
      )
  unfolding open_file
  opened ino bytes s h clean room =
      let next : (s.next_handle + 1) % 2 ^ 64 ≡ suc s.next_handle = omega arith in
      rw (h, clean, next)

  -- A call of `open` either opens, or leaves the table of the open files alone.
  abbrev Opens : Ino → State → State → Type 0
  Opens ino s s' =
      (s' ≡ s)
      ⊎ (s' ≡ record s {
        open_files = insert s.next_handle ino s.open_files;
        next_handle = suc s.next_handle;
      })

  open_cases :
      (ino : Ino) (s : State)
      → s.poisoned ≡ false
      → s.next_handle + 1 < 2 ^ 64
      → Opens ino s (open_file owner t ino s).1
  unfolding open_file
  open_cases ino s clean room = go (node owner t ino)
    where
      go : (r : FsResult Node) → Opens ino s (open_node owner t ino r s).1
      go (err e) = inl refl
      go (ok (dir children)) = inl refl
      go (ok (file bytes)) =
          let next : (s.next_handle + 1) % 2 ^ 64 ≡ suc s.next_handle = omega arith in
          inr (rw (clean, next))

  released :
      (fh : FileHandle) (s : State)
      → s.poisoned ≡ false
      → release owner t fh s ≡ (ok tt, record s { open_files = remove fh s.open_files })
  unfolding release
  released fh s clean = rw clean

  pub read_kept :
      (fh : FileHandle) (offset : ℕ) (buf : List ℕ) (s : State)
      → (read_at owner t fh offset buf s).1 ≡ s
  unfolding read_at
  read_kept fh offset buf s = elim (Bool-cases s.poisoned) [ inl h ↦ rw h | inr h ↦ rw h ]

  run_call-Fresh :
      (c : Call) (s : State)
      → Fresh s
      → s.next_handle + 1 < 2 ^ 64
      → Fresh (run_call owner t c s) × Grows s (run_call owner t c s)
  unfolding run_call
  run_call-Fresh (open_call ino) s f room = elim (open_cases ino s f.clean room) [
    | inl same ↦ rw same (f, (omega arith, omega arith))
    | inr grown ↦ rw grown (
      record { clean = f.clean; below = Below-insert s.next_handle ino s.open_files f.below },
      (omega arith, omega arith),
    )
  ]
  run_call-Fresh (read_call fh offset buf) s f room =
      rw (read_kept fh offset buf s) (f, (omega arith, omega arith))
  run_call-Fresh (release_call fh) s f room =
      rw (run_call, released fh s f.clean)
        (
          record { clean = f.clean; below = Below-remove s.next_handle fh s.open_files f.below },
          (omega arith, omega arith),
        )

  -- An entry of the table stays as it is under the calls that spare it, whether it is there or not.
  run_call-get :
      (c : Call) (fh : FileHandle) (s : State)
      → Fresh s
      → s.next_handle + 1 < 2 ^ 64
      → fh < s.next_handle
      → Spares fh c
      → get fh (run_call owner t c s).open_files ≡ get fh s.open_files
  unfolding run_call
  run_call-get (open_call ino) fh s f room old spares = elim (open_cases ino s f.clean room) [
    | inl same ↦ rw same
    | inr grown ↦ rw grown (get-insert_ne fh s.next_handle ino s.open_files (omega arith))
  ]
  run_call-get (read_call h offset buf) fh s f room old spares = rw (read_kept h offset buf s)
  run_call-get (release_call h) fh s f room old spares =
      rw (run_call, released h s f.clean) (get-remove_ne fh h s.open_files spares)

  run_calls-get :
      (cs : List Call) (fh : FileHandle) (s : State)
      → Fresh s
      → s.next_handle + length cs < 2 ^ 64
      → fh < s.next_handle
      → All (Spares fh) cs
      → (get fh (run_calls owner t cs s).open_files ≡ get fh s.open_files)
        × Fresh (run_calls owner t cs s)
        × (fh < (run_calls owner t cs s).next_handle)
        × ((run_calls owner t cs s).next_handle ≤ s.next_handle + length cs)
  unfolding run_calls
  run_calls-get [] fh s f room old spares = (refl, f, old, omega arith)
  run_calls-get (c ∷ cs) fh s f room old (spares, all) =
      let (f', g) = run_call-Fresh c s f (omega arith) in
      let (e, fresh, old', count) =
        run_calls-get cs fh (run_call owner t c s) f' (omega (arith, g.1)) (omega (arith, g.0))
          all in
      (e ∙ run_call-get c fh s f (omega arith) old spares, fresh, old', omega (arith, count, g.1))

  pub read_live :
      (ino : Ino) (bytes : List ℕ) (fh : FileHandle) (offset : ℕ) (buf : List ℕ) (s : State)
      → node owner t ino ≡ ok (file bytes)
      → s.poisoned ≡ false
      → get fh s.open_files ≡ some ino
      → read_at owner t fh offset buf s
        ≡ ((ok (length (slice offset (length buf) bytes)), slice offset (length buf) bytes), s)
  unfolding read_at
  read_live ino bytes fh offset buf s h clean live =
      let start = min offset (length bytes) in
      let rest = drop start bytes in
      let width : length rest ≡ length bytes - start = length-drop start bytes in
      let part : take (min (length buf) (length bytes - start)) rest
          ≡ slice offset (length buf) bytes =
        rw (sym width) (
          take-min (length buf) rest
          ∙ ap (λ (l : List ℕ). take (length buf) l) (drop-min offset bytes)) in
      let count : min (length buf) (length bytes - start)
          ≡ length (slice offset (length buf) bytes) =
        omega (arith, length-take (length buf) (drop offset bytes), length-drop offset bytes) in
      rw (clean, live, h, part, count)

  -- A file that is opened is served under its handle for as long as the handle is not released,
  -- whatever else is opened, read and released meanwhile: every read gives the bytes of the file's
  -- content at its offset, as many as the buffer holds or the file has left, and changes nothing.
  pub opened_reads :
      (ino : Ino) (bytes : List ℕ) (s : State) (calls : List Call) (offset : ℕ) (buf : List ℕ)
      → node owner t ino ≡ ok (file bytes)
      → Fresh s
      → s.next_handle + 1 + length calls < 2 ^ 64
      → All (Spares s.next_handle) calls
      → let (fh, s') = open_file owner t ino s in
        let later = run_calls owner t calls s' in
        (fh ≡ ok s.next_handle)
        × (read_at owner t s.next_handle offset buf later ≡ (
          (ok (length (slice offset (length buf) bytes)), slice offset (length buf) bytes),
          later,
        ))
  opened_reads ino bytes s calls offset buf h f room spares =
      let e = opened ino bytes s h f.clean (omega arith) in
      let s' = record s {
        open_files = insert s.next_handle ino s.open_files;
        next_handle = suc s.next_handle;
      } in
      let f' : Fresh s' = record {
        clean = f.clean;
        below = Below-insert s.next_handle ino s.open_files f.below;
      } in
      let (same, f'', old', count) =
        run_calls-get calls s.next_handle s' f' (omega arith) (omega arith) spares in
      rw e (
        refl,
        read_live ino bytes s.next_handle offset buf (run_calls owner t calls s') h f''.clean
            (same ∙ get-insert s.next_handle ino s.open_files),
      )

  -- A handle that was in use is dead once it is released, and is not given out again: whatever calls
  -- follow, a read of it is refused as an invalid argument.
  pub released_stale :
      (fh : FileHandle) (s : State) (calls : List Call) (offset : ℕ) (buf : List ℕ)
      → Fresh s
      → fh < s.next_handle
      → s.next_handle + length calls < 2 ^ 64
      → All (Spares fh) calls
      → let later = run_calls owner t calls (release owner t fh s).1 in
        read_at owner t fh offset buf later ≡ ((err invalid_argument, []), later)
  unfolding read_at
  released_stale fh s calls offset buf f old room spares =
      let s' = record s { open_files = remove fh s.open_files } in
      let f' : Fresh s' = record {
        clean = f.clean;
        below = Below-remove s.next_handle fh s.open_files f.below;
      } in
      let (same, f'', old', count) = run_calls-get calls fh s' f' room old spares in
      rw (released fh s f.clean) (rw (f''.clean, same ∙ get-remove fh s.open_files))
