-- ===== src/NfsMount/Call.antt =====
-- The arguments that src/backend/nfs/local.rs hands to the encoder.
use anymount.Prelude.{
  ℕ, ◌+◌, ◌*◌, ◌≤◌, ◌≡◌, ◌∙◌, false, some, List, [], ◌∷◌, length, ltb, arith, length-append,
  length-to_be_bytes, to_be_bytes,
}
use anymount.Types.{root_ino}
use anymount.Handle.{from_secret, encode, resolve, to_hex}
use anymount.Handle.Laws.{resolve-encode}
use anymount.Handle.Export.{length-to_hex}
use anymount.Mount.{MountBuilder}
use anymount.NfsMount.Defs.{volume_label}
use anymount.NfsMount.Label.{volume_label-IsPlain}
use anymount.NfsMount.Args.{sun_path_max}
use anymount.NfsMount.Layout.{Bounded}
use anymount.NfsMount.Local.{LocalEnv, socket_path, utf8_char, utf8, mount_args}

length-utf8_char : (c : ℕ) → length (utf8_char c) ≤ 4
unfolding utf8_char
length-utf8_char c = ground arith

length-utf8 : (cs : List ℕ) → length (utf8 cs) ≤ 4 * length cs
unfolding utf8
length-utf8 [] = omega arith
length-utf8 (c ∷ cs) =
    omega (arith, length-utf8 cs, length-utf8_char c, length-append (utf8_char c) (utf8 cs))

length-socket_path : (suffix : List ℕ) → length (socket_path suffix) ≡ 17 + 2 * length suffix
unfolding socket_path
length-socket_path suffix =
    omega (arith, length-to_hex suffix, length-append (to_hex suffix) (b'/' ∷ b's' ∷ []))

length-guard : (n : ℕ) → n ≡ 33 → ltb sun_path_max n ≡ false
length-guard n h = ground (arith, h)

-- With a suffix of 8 bytes and a secret of 16, whatever the builder holds: the socket's path fits
-- `sun_path`, so the guard on its length never fires; the arguments are within the bounds of the
-- encoder; and the file handle in them is one that the server resolves to the root.
pub mount_args-Bounded :
    (b : MountBuilder) (env : LocalEnv)
    → length env.suffix ≡ 8
    → length env.secret ≡ 16
    → (ltb sun_path_max (length (socket_path env.suffix)) ≡ false)
      × Bounded (mount_args b env)
      × (resolve (from_secret env.secret) (mount_args b env).root_handle ≡ some root_ino)
unfolding mount_args encode from_secret
mount_args-Bounded b env hs hk =
    let size : length (socket_path env.suffix) ≡ 33 =
      length-socket_path env.suffix ∙ omega (arith, hs) in
    let label : length (volume_label b.fs_name) ≤ 64 = (volume_label-IsPlain b.fs_name).2 in
    (
      length-guard (length (socket_path env.suffix)) size,
      record {
        path = omega (arith, size);
        handle = omega (
          arith,
          length-append env.secret (to_be_bytes 8 root_ino),
          length-to_be_bytes 8 root_ino,
          hk,
        );
        name = omega (arith, length-utf8 (volume_label b.fs_name), label);
        secs = omega arith;
        nanos = omega arith;
        retries = omega arith;
      },
      resolve-encode (from_secret env.secret) root_ino hk (omega arith),
    )
