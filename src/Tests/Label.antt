-- ===== src/Tests/Label.antt =====
-- The volume label of a name that is made to look like a path, and an unmount that fails.
use anymount.Prelude.{Option, some, ℕ, ◌≢◌, ◌≡◌, ◌≤◌, refl, List, [], ◌∷◌, length, All}
use anymount.NfsMount.{
  volume_label, label_loop, label_step, ends_with_dash, is_control, is_whitespace,
}
use anymount.NfsMount.{trim_start, trim_end}
use anymount.Error.{IoError, ErrorKind}
use anymount.NfsMount.Label.{IsPlain, volume_label-IsPlain}

-- `../a//b`
abbrev path_like : List ℕ
path_like = b'.' ∷ b'.' ∷ b'/' ∷ b'a' ∷ b'/' ∷ b'/' ∷ b'b' ∷ []

-- `a-b`
volume_label-path_like : volume_label path_like ≡ b'a' ∷ b'-' ∷ b'b' ∷ []
unfolding volume_label label_loop label_step ends_with_dash is_control is_whitespace trim_start
    trim_end
volume_label-path_like = refl

volume_label-IsPlain_example :
    All IsPlain (volume_label path_like)
    × (volume_label path_like ≢ [])
    × (length (volume_label path_like) ≤ 64)
volume_label-IsPlain_example = volume_label-IsPlain path_like

abbrev busy : IoError
busy = record { kind = ErrorKind.unnamed 16; raw_os_error = some 16; message = "busy" }

abbrev own_device : Option ℕ
own_device = some 5

abbrev up_device : Option (Option ℕ)
up_device = some (some 4)
