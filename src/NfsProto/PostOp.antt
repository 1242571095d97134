-- ===== src/NfsProto/PostOp.antt =====
-- The attributes in a reply of src/backend/nfs/nfs_proto.rs, as a client passes over them.
use anymount.Prelude.{
  ℕ, ◌≡◌, Bool, true, false, some, Option, sym, ap, ◌∙◌, ◌≤◌, append-nil, length-append,
  length-to_be_bytes, List, [], ◌∷◌, ◌++◌, length, to_be_bytes, append_assoc, Result-cases, inl,
  inr, refl, arith,
}
use anymount.Types.{Ino}
use anymount.Fs.{ReadOnlyFs}
use anymount.Fs as Fs
use anymount.Xdr.{Reader, Read, pure, ◌>>=◌, skip, read_bool, Writer, write_bool, write_u32}
use anymount.Xdr.RoundTrip.{at, Fits, Fits-next, take_bytes-at, flag, read_bool-at}
use anymount.NfsProto.Attrs.{
  Ctx, write_fattr3, write_post_op_attr_best_effort, write_post_op_attr_ok,
  write_post_op_attr_absent,
}
use anymount.NfsProto.Lengths.{length-write_fattr3, write_fattr3-append}

-- `fattr3` has 84 bytes.
abbrev pub skip_attr : Bool → Read (Unit {0})
skip_attr true = skip 84
skip_attr false = pure tt

pub skip-at :
    (n : ℕ) (before x after : List ℕ)
    → length x ≡ n
    → Fits (at before (x ++ after))
    → skip n (at before (x ++ after)) ≡ (some tt, at (before ++ x) after)
unfolding skip
skip-at n before x after h fits =
    let taken = rw h at (take_bytes-at before x after fits) in rw (◌>>=◌, taken)

-- `post_op_attr`
unfoldable pub skip_post_op_attr : Read (Unit {0})
skip_post_op_attr = do attributes_follow ← read_bool; skip_attr attributes_follow

-- Bytes that it passes over.
pub record IsPostOp (bytes : List ℕ) : Type 0 where
  pub follow : Bool
  pub attributes : List ℕ
  pub parts : bytes ≡ to_be_bytes 4 (flag follow) ++ attributes
  pub sized : length attributes ≡ (elim follow [ true ↦ 84 | false ↦ 0 ])

pub best_effort-IsPostOp :
    (F : ReadOnlyFs) (ctx : Ctx) (ino : Ino) (w : Writer) (s : F.State)
    → (bytes : List ℕ) × ((write_post_op_attr_best_effort F ctx ino w s).0 ≡ w ++ bytes)
      × IsPostOp bytes
unfolding write_post_op_attr_best_effort write_post_op_attr_ok write_post_op_attr_absent write_bool
    write_u32
best_effort-IsPostOp F ctx ino w s = elim (Result-cases (F.getattr ino s).0) [
  | inl (a, h) ↦
      (let x = write_fattr3 a ctx.fsid [] in
        (
          to_be_bytes 4 1 ++ x,
          rw (Fs.◌>>=◌, h)
              (rw (write_fattr3-append a ctx.fsid (w ++ to_be_bytes 4 1))
                (append_assoc w (to_be_bytes 4 1) x)),
          record {
            follow = true;
            attributes = x;
            parts = refl;
            sized = length-write_fattr3 a ctx.fsid [];
          },
        ))
  | inr (e, h) ↦ (
    to_be_bytes 4 0,
    rw (Fs.◌>>=◌, h) refl,
    record {
      follow = false;
      attributes = [];
      parts = sym (append-nil (to_be_bytes 4 0));
      sized = refl;
    },
  )
]

skip_as :
    (b : Bool) (before x after : List ℕ)
    → length x ≡ (elim b [ true ↦ 84 | false ↦ 0 ])
    → Fits (at before (x ++ after))
    → skip_attr b (at before (x ++ after)) ≡ (some tt, at (before ++ x) after)
skip_as true before x after h fits = skip-at 84 before x after h fits
skip_as false before [] after h fits =
    ap (λ (b : List ℕ). (let x : Option (Unit {0}) × Reader = (some tt, at b after) in x))
      (sym (append-nil before))
skip_as false before (b ∷ x) after h fits = absurd (omega arith)

skip_parts :
    (before x after : List ℕ) (b : Bool)
    → length x ≡ (elim b [ true ↦ 84 | false ↦ 0 ])
    → let word = to_be_bytes 4 (flag b) in
      Fits (at before (word ++ (x ++ after)))
      → skip_post_op_attr (at before (word ++ (x ++ after)))
        ≡ (some tt, at ((before ++ word) ++ x) after)
unfolding skip_post_op_attr
skip_parts before x after b h fits =
    let word = to_be_bytes 4 (flag b) in
    rw (
      ◌>>=◌,
      read_bool-at before (x ++ after) b fits,
      skip_as b (before ++ word) x after h (Fits-next before word (x ++ after) fits),
    )

pub skip_post_op_attr-at :
    (before bytes after : List ℕ)
    → IsPostOp bytes
    → Fits (at before (bytes ++ after))
    → skip_post_op_attr (at before (bytes ++ after)) ≡ (some tt, at (before ++ bytes) after)
skip_post_op_attr-at before bytes after h fits =
    let word = to_be_bytes 4 (flag h.follow) in
    let split : bytes ++ after ≡ word ++ (h.attributes ++ after) =
      ap (λ (b : List ℕ). b ++ after) h.parts ∙ append_assoc word h.attributes after in
    let join : (before ++ word) ++ h.attributes ≡ before ++ bytes =
      append_assoc before word h.attributes ∙ ap (λ (b : List ℕ). before ++ b) (sym h.parts) in
    ap (λ (b : List ℕ). skip_post_op_attr (at before b)) split
    ∙ skip_parts before h.attributes after h.follow h.sized (rw split at fits)
    ∙ ap (λ (b : List ℕ). (let x : Option (Unit {0}) × Reader = (some tt, at b after) in x)) join

attributes_bound : (b : Bool) (n : ℕ) → n ≡ (elim b [ true ↦ 84 | false ↦ 0 ]) → n ≤ 84
attributes_bound true n h = omega arith
attributes_bound false n h = omega arith

pub length-IsPostOp : (bytes : List ℕ) → IsPostOp bytes → length bytes ≤ 88
length-IsPostOp bytes h =
    let word = to_be_bytes 4 (flag h.follow) in
    let split = ap (λ (b : List ℕ). length b) h.parts in
    omega (
      arith,
      split,
      length-append word h.attributes,
      length-to_be_bytes 4 (flag h.follow),
      attributes_bound h.follow (length h.attributes) h.sized,
    )
