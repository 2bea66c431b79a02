-- ===== src/Exposure/Mounts/Escapes.antt =====
-- Paths as the kernel escapes them, and the escapes that src/exposure/mounts.rs decodes.
use census.Prelude.{
  ◌&&◌, not, all, true, Bool, refl, false, arith, [], ◌≡◌, if◌then◌else◌, ◌==◌, ◌∷◌, ℕ, Text,
}
use census.Exposure.Mounts.{escape_of, unescape_mountinfo}

-- The kernel's own encoding of a path.
unfoldable pub escape_path : Text → Text
escape_path [] = []
escape_path (c ∷ s) =
    let rest = escape_path s in
    if c == b' '
    then b'\\' ∷ b'0' ∷ b'4' ∷ b'0' ∷ rest
    else if c == b'\t'
    then b'\\' ∷ b'0' ∷ b'1' ∷ b'1' ∷ rest
    else if c == b'\n'
    then b'\\' ∷ b'0' ∷ b'1' ∷ b'2' ∷ rest
    else if c == b'\\'
    then b'\\' ∷ b'1' ∷ b'3' ∷ b'4' ∷ rest
    else c ∷ rest

unescape-plain :
    (c : ℕ) (s : Text)
    → (c == b'\\') ≡ false
    → unescape_mountinfo (c ∷ s) ≡ c ∷ unescape_mountinfo s
unfolding unescape_mountinfo
unescape-plain c [] h = refl
unescape-plain c (x ∷ []) h = refl
unescape-plain c (x ∷ y ∷ []) h = refl
unescape-plain c (x ∷ y ∷ z ∷ s) h = rw h refl

pub unescape-escape : (p : Text) → unescape_mountinfo (escape_path p) ≡ p
unfolding escape_path unescape_mountinfo escape_of
unescape-escape [] = refl
unescape-escape (c ∷ s) = ground (arith, unescape-escape s, unescape-plain c (escape_path s))

-- Neither a space nor a newline.
abbrev pub is_field_char : ℕ → Bool
is_field_char c = not (c == b' ') && not (c == b'\n')

abbrev pub is_field : Text → Bool
is_field w = all is_field_char w

pub escape_path-is_field : (p : Text) → is_field (escape_path p) ≡ true
unfolding escape_path
escape_path-is_field [] = refl
escape_path-is_field (c ∷ s) = ground (arith, escape_path-is_field s)
