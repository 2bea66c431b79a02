-- ===== src/Prelude/Unicode.antt =====
-- White space, trimming and UTF-8 validity, as the source's standard library has them.

use Prim.Native.Nat.{ℕ, ◌+◌, ◌*◌, ◌-◌}
use mathlib.Core.Bool.{Bool, ◌&&◌, ◌||◌}
use mathlib.Core.Option.{Option, none, some}
use mathlib.Core.List.{List, [], ◌∷◌, ◌++◌}
use census.Prelude.Tests.{ltb, leb, ◌==◌, if◌then◌else◌}
use census.Prelude.Strings.{Text}

-- `char::is_whitespace`
unfoldable pub is_whitespace : ℕ → Bool
is_whitespace c =
    (leb 9 c && leb c 13)
    || (c == 32
        || (c == 0x85
            || (c == 0xA0
                || (c == 0x1680
                    || ((leb 0x2000 c && leb c 0x200A)
                        || (c == 0x2028
                            || (c == 0x2029 || (c == 0x202F || (c == 0x205F || c == 0x3000)))))))))

-- `trim_start`
unfoldable pub trim_start : Text → Text
trim_start [] = []
trim_start (c ∷ s) = if is_whitespace c then trim_start s else c ∷ s

-- A character before a trimmed rest goes when it is white space and nothing is left of the rest.
abbrev pub keep_end : ℕ → Text → Text
keep_end c [] = if is_whitespace c then [] else c ∷ []
keep_end c (d ∷ s) = c ∷ d ∷ s

-- `trim_end`
unfoldable pub trim_end : Text → Text
trim_end [] = []
trim_end (c ∷ s) = keep_end c (trim_end s)

-- `trim`
unfoldable pub trim : Text → Text
trim s = trim_end (trim_start s)

-- Where a UTF-8 decoder stands: between characters, or before `more` further bytes of one, the next
-- of which is between `lo` and `hi`.
pub data Utf8State : Type 0 where
  boundary : Utf8State
  inside : (more code lo hi : ℕ) → Utf8State

unfoldable pub lead : ℕ → Option (Text × Utf8State)
lead b =
    if ltb b 0x80
    then some (b ∷ [], boundary)
    else if ltb b 0xC2
    then none
    else if ltb b 0xE0
    then some ([], inside 1 (b - 0xC0) 0x80 0xBF)
    else if b == 0xE0
    then some ([], inside 2 0 0xA0 0xBF)
    else if b == 0xED
    then some ([], inside 2 0xD 0x80 0x9F)
    else if ltb b 0xF0
    then some ([], inside 2 (b - 0xE0) 0x80 0xBF)
    else if b == 0xF0
    then some ([], inside 3 0 0x90 0xBF)
    else if ltb b 0xF4
    then some ([], inside 3 (b - 0xF0) 0x80 0xBF)
    else if b == 0xF4
    then some ([], inside 3 4 0x80 0x8F)
    else none

unfoldable pub utf8_step : Utf8State → ℕ → Option (Text × Utf8State)
utf8_step boundary b = lead b
utf8_step (inside more code lo hi) b =
    let next = code * 64 + (b - 0x80) in
    if leb lo b && leb b hi
    then (if leb more 1
        then some (next ∷ [], boundary)
        else some ([], inside (more - 1) next 0x80 0xBF))
    else none

abbrev pub prepend : Text → Option Text → Option Text
prepend l none = none
prepend l (some t) = some (l ++ t)

unfoldable pub decode : Utf8State → List ℕ → Option Text
decode boundary [] = some []
decode (inside more code lo hi) [] = none
decode st (b ∷ bytes) = elim (utf8_step st b) [
  | none ↦ none
  | some s ↦ prepend s.0 (decode s.1 bytes)
]

-- `str::from_utf8`
unfoldable pub from_utf8 : List ℕ → Option Text
from_utf8 bytes = decode boundary bytes
