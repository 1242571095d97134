-- ===== src/NfsMount/Defs.antt =====
-- src/backend/nfs/mod.rs: the volume label. A text is the list of its characters' code points.
use anymount.Prelude.{ℕ, Bool, false, not, ◌&&◌, ◌||◌, List, [], ◌∷◌, ◌++◌, take, leb, ltb, ◌==◌}
use anymount.Prelude.{if◌then◌else◌}

abbrev pub max_label_len : ℕ
max_label_len = 64

-- `anymount`
abbrev pub default_label : List ℕ
default_label = b'a' ∷ b'n' ∷ b'y' ∷ b'm' ∷ b'o' ∷ b'u' ∷ b'n' ∷ b't' ∷ []

abbrev between : ℕ → ℕ → ℕ → Bool
between low high c = leb low c && leb c high

-- `char::is_control`: the category Cc.
unfoldable pub is_control : ℕ → Bool
is_control c = ltb c 32 || between 127 159 c

-- `char::is_whitespace`: the property White_Space.
unfoldable pub is_whitespace : ℕ → Bool
is_whitespace c =
    between 9 13 c
    || c == 32
    || c == 0x85
    || c == 0xa0
    || c == 0x1680
    || between 0x2000 0x200a c
    || c == 0x2028
    || c == 0x2029
    || c == 0x202f
    || c == 0x205f
    || c == 0x3000

unfoldable pub ends_with_dash : List ℕ → Bool
ends_with_dash [] = false
ends_with_dash (c ∷ []) = c == b'-'
ends_with_dash (c ∷ d ∷ cs) = ends_with_dash (d ∷ cs)

-- One round of the loop of `volume_label`.
unfoldable pub label_step : List ℕ → ℕ → List ℕ
label_step out ch =
    if not (ch == b'/' || is_control ch)
    then out ++ (ch ∷ [])
    else if ends_with_dash out
    then out
    else out ++ (b'-' ∷ [])

unfoldable pub label_loop : List ℕ → List ℕ → List ℕ
label_loop out [] = out
label_loop out (ch ∷ chars) = label_loop (label_step out ch) chars

abbrev pub is_trimmed : ℕ → Bool
is_trimmed c = c == b'-' || c == b'.' || is_whitespace c

-- `trim_matches`, from the front and from the back.
unfoldable pub trim_start : List ℕ → List ℕ
trim_start [] = []
trim_start (c ∷ cs) = let rest = trim_start cs in if is_trimmed c then rest else c ∷ cs

abbrev pub keep_char : ℕ → List ℕ → List ℕ
keep_char c [] = if is_trimmed c then [] else c ∷ []
keep_char c (d ∷ rest) = c ∷ d ∷ rest

unfoldable pub trim_end : List ℕ → List ℕ
trim_end [] = []
trim_end (c ∷ cs) = keep_char c (trim_end cs)

abbrev pub or_default : List ℕ → List ℕ
or_default [] = default_label
or_default (c ∷ cs) = c ∷ cs

unfoldable pub volume_label : List ℕ → List ℕ
volume_label fs_name =
    or_default (trim_end (trim_start (label_loop [] (take max_label_len fs_name))))
