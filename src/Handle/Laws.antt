-- ===== src/Handle/Laws.antt =====
-- Which byte strings a file handle resolves.
use anymount.Prelude.{ℕ, ◌^◌, ◌<◌, ◌≡◌, ◌↔◌, refl, some}
use anymount.Prelude.{List, length, take, drop, All, IsByte, arith}
use anymount.Prelude.{length-append, length-drop, take-append-drop, take-length}
use anymount.Prelude.{take-append_length, drop-append_length, All-drop}
use anymount.Prelude.{to_be_bytes, length-to_be_bytes, from_be_bytes-to_be_bytes}
use anymount.Prelude.{to_be_bytes-from_be_bytes, from_be_bytes-lt}
use anymount.Types.{Ino}
use anymount.Handle.Defs.{FileHandle3, encode, resolve}
use anymount.Handle.CtEq.{ct_eq_iff}

abbrev pub IsSecret : List ℕ → Type 0
IsSecret secret = length secret ≡ 16

pub length-encode : (h : FileHandle3) (ino : Ino) → IsSecret h.secret → length (encode h ino) ≡ 24
unfolding encode
length-encode h ino hs =
    omega (arith, length-append h.secret (to_be_bytes 8 ino), length-to_be_bytes 8 ino)

pub resolve-encode :
    (h : FileHandle3) (ino : Ino)
    → IsSecret h.secret
    → ino < 2 ^ 64
    → resolve h (encode h ino) ≡ some ino
unfolding resolve encode
resolve-encode h ino hs hi = ground (
  arith,
  length-encode h ino hs,
  take-append_length h.secret (to_be_bytes 8 ino),
  drop-append_length h.secret (to_be_bytes 8 ino),
  take-length (to_be_bytes 8 ino),
  length-to_be_bytes 8 ino,
  (ct_eq_iff h.secret h.secret).1 refl,
  from_be_bytes-to_be_bytes 8 ino hi,
)

resolve_only :
    (h : FileHandle3) (bytes : List ℕ) (ino : Ino)
    → All IsByte bytes
    → resolve h bytes ≡ some ino
    → (bytes ≡ encode h ino) × (ino < 2 ^ 64)
unfolding resolve encode
resolve_only h bytes ino hb e = ground (
  arith,
  (ct_eq_iff (take 16 bytes) h.secret).0,
  take-append-drop 16 bytes,
  length-drop 16 bytes,
  take-length (drop 16 bytes),
  to_be_bytes-from_be_bytes (drop 16 bytes) (All-drop IsByte 16 bytes hb),
  from_be_bytes-lt (drop 16 bytes) (All-drop IsByte 16 bytes hb),
)

-- A byte string resolves to an inode exactly when it is the handle that this mount's secret gives
-- that inode, an inode being a u64.
pub resolve_iff :
    (h : FileHandle3) (bytes : List ℕ) (ino : Ino)
    → IsSecret h.secret
    → All IsByte bytes
    → (resolve h bytes ≡ some ino) ↔ ((bytes ≡ encode h ino) × (ino < 2 ^ 64))
resolve_iff h bytes ino hs hb =
    (resolve_only h bytes ino hb, λ p. rw p.0 (resolve-encode h ino hs p.1))
