-- ===== src/NfsMount/Layout.antt =====
-- The layout of the argument buffer, as the head of src/backend/nfs/mount_args.rs gives it.
use anymount.Prelude.{
  ℕ, ◌+◌, ◌-◌, ◌%◌, ◌^◌, ◌≤◌, ◌<◌, ◌≡◌, refl, sym, ap, ◌∙◌, some, List, [], ◌∷◌, ◌++◌, length,
  arith,
}
use anymount.Prelude.{append-nil, length-append, All, to_be_bytes, to_le_bytes, replicate}
use anymount.Xdr.{new_reader, pad_len}
use anymount.Xdr.Writes.{write_opaque_fixed-padded}
use anymount.Xdr.RoundTrip.{at}
use anymount.NfsMount.Args.{
  LocalMountArgs, encode, encode_values, bit, bitmap_loop, attr_bitmap, mntfrom, socket_type_local,
  header_len,
}
use anymount.NfsMount.Fields.{
  Field, word, opaque, Shape, a_word, an_opaque, all_bytes, Sized, shapes_of, read_fields,
  read_fields-at, write_fields, write_fields-all_bytes, length-all_bytes, length-all_bytes-room,
  all_bytes-append,
}

-- The attributes in ascending order of their numbers, and the words of the head.
abbrev pub value_fields : LocalMountArgs → List Field
value_fields args =
    word 1
    ∷ word 37
    ∷ word 1
    ∷ word 1
    ∷ word 3
    ∷ opaque socket_type_local
    ∷ word args.timeout_secs
    ∷ word args.timeout_nanos
    ∷ word args.soft_retry_count
    ∷ opaque args.root_handle
    ∷ word 1
    ∷ word 1
    ∷ opaque args.socket_path
    ∷ word 1
    ∷ opaque args.socket_path
    ∷ word 0
    ∷ word 1
    ∷ opaque args.label
    ∷ word 0
    ∷ word 1
    ∷ opaque (args.socket_path ++ (b':' ∷ b'/' ∷ args.label))
    ∷ opaque args.socket_path
    ∷ []

abbrev pub layout : List Shape
layout =
    a_word ∷ a_word ∷ a_word ∷ a_word ∷ a_word ∷ a_word ∷ a_word ∷ a_word ∷ a_word ∷ a_word ∷ a_word
    ∷ a_word ∷ an_opaque ∷ a_word ∷ a_word ∷ a_word ∷ an_opaque ∷ a_word ∷ a_word ∷ an_opaque
    ∷ a_word ∷ an_opaque ∷ a_word ∷ a_word ∷ an_opaque ∷ a_word ∷ a_word ∷ an_opaque ∷ an_opaque
    ∷ []

-- Bits 0, 1, 14, 17, 18, 20, 21, 22, 23 and 29.
abbrev pub attribute_bits : ℕ
attribute_bits = 553009155

abbrev head_fields : ℕ → List Field
head_fields n =
    word 88 ∷ word (28 + n) ∷ word 0 ∷ word 2 ∷ word attribute_bits ∷ word 0 ∷ word n ∷ []

pub attr_bitmap-attribute_bits : attr_bitmap ≡ (attribute_bits, 0)
unfolding attr_bitmap bitmap_loop bit
attr_bitmap-attribute_bits = refl

values-all_bytes :
    (args : LocalMountArgs)
    → args.timeout_secs < 2 ^ 32
    → encode_values args ≡ all_bytes (value_fields args)
values-all_bytes args h =
    let secs : args.timeout_secs % 2 ^ 32 ≡ args.timeout_secs = omega arith in
    unfold encode_values write_fields bit mntfrom in
    (rw secs (write_fields-all_bytes (value_fields args) []))

-- What the caller gives: a path that `sun_path` holds, a file handle of NFSv3, a label of a volume,
-- and numbers of 32 bits.
pub record Bounded (args : LocalMountArgs) : Type 0 where
  pub path : length args.socket_path ≤ 104
  pub handle : length args.root_handle ≤ 64
  pub name : length args.label ≤ 256
  pub secs : args.timeout_secs < 2 ^ 32
  pub nanos : args.timeout_nanos < 2 ^ 32
  pub retries : args.soft_retry_count < 2 ^ 32

values_small :
    (args : LocalMountArgs) → Bounded args → length (all_bytes (value_fields args)) < 2 ^ 16
values_small args b = omega (
  arith,
  b.path,
  b.handle,
  b.name,
  length-all_bytes-room (value_fields args),
  length-append args.socket_path (b':' ∷ b'/' ∷ args.label),
)

whole-all_bytes :
    (args : LocalMountArgs)
    → Bounded args
    → encode args
      ≡ all_bytes (head_fields (length (all_bytes (value_fields args))))
        ++ all_bytes (value_fields args)
whole-all_bytes args b =
    let values : List ℕ = all_bytes (value_fields args) in
    let n : ℕ = length values in
    let small : n < 2 ^ 16 = values_small args b in
    let total : (header_len + n) % 2 ^ 32 ≡ 28 + n = omega arith in
    let left : n % 2 ^ 32 ≡ n = omega arith in
    let none_left : pad_len n ≡ 0 =
      unfold pad_len in omega (arith, length-all_bytes (value_fields args)) in
    let head : List ℕ = write_fields (head_fields n) [] in
    unfold encode write_fields in
    (rw (values-all_bytes args b.secs, total, left, attr_bitmap-attribute_bits)
      (write_opaque_fixed-padded values head
        ∙ ap (λ (k : ℕ). head ++ (values ++ replicate k 0)) none_left
        ∙ ap (λ (v : List ℕ). head ++ v) (append-nil values)
        ∙ ap (λ (h : List ℕ). h ++ values) (write_fields-all_bytes (head_fields n) [])))

length-head : (n : ℕ) → length (all_bytes (head_fields n)) ≡ 28
length-head n = unfold all_bytes to_be_bytes to_le_bytes in refl

-- Read by the layout that the file documents, the buffer for bounded arguments is the head and the
-- values, and nothing is left over: the version 88, the length of the whole buffer, 0, the count 2 of
-- bitmap words, the bitmap of the ten attributes, the length of all that follows, and the values in
-- ascending order of the attributes, with flags that say soft, no reserved port and no MOUNT call.
pub encode-layout :
    (args : LocalMountArgs)
    → Bounded args
    → read_fields layout (new_reader (encode args)) ≡ (
      some (
          word 88
          ∷ word (length (encode args))
          ∷ word 0
          ∷ word 2
          ∷ word attribute_bits
          ∷ word 0
          ∷ word (length (encode args) - 28)
          ∷ value_fields args),
      at (encode args) [],
    )
encode-layout args b =
    let values : List ℕ = all_bytes (value_fields args) in
    let n : ℕ = length values in
    let small : n < 2 ^ 16 = values_small args b in
    let fields : List Field = head_fields n ++ value_fields args in
    let whole : encode args ≡ all_bytes fields =
      whole-all_bytes args b ∙ sym (all_bytes-append (head_fields n) (value_fields args)) in
    let count : length (encode args) ≡ 28 + n =
      ap (λ (l : List ℕ). length l) (whole-all_bytes args b)
      ∙ omega (arith, length-append (all_bytes (head_fields n)) values, length-head n) in
    let rest : length (encode args) - 28 ≡ n = omega (arith, count) in
    let sized : All Sized fields = omega (
      arith,
      small,
      b.path,
      b.handle,
      b.name,
      b.secs,
      b.nanos,
      b.retries,
      length-append args.socket_path (b':' ∷ b'/' ∷ args.label),
    ) in
    let fits : length (all_bytes fields) < 2 ^ 64 =
      rw whole at (let e : length (encode args) < 2 ^ 64 = omega (arith, count) in e) in
    ap (λ (l : List ℕ). read_fields layout (new_reader l)) whole
    ∙ unfold shapes_of new_reader in
      read_fields-at fields [] sized fits ∙ (λ i. (
        some (
            word 88
            ∷ word (sym count i)
            ∷ word 0
            ∷ word 2
            ∷ word attribute_bits
            ∷ word 0
            ∷ word (sym rest i)
            ∷ value_fields args),
        at (sym whole i) [],
      ))
