-- ===== src/Prelude/Paths.antt =====
-- `Path` of the source's standard library: its equality, which is that of the components, and
-- `join`.
use mathlib.Core.Path.{◌≡◌, refl, ◌∙◌}
use mathlib.Core.Logic.{◌↔◌}
use mathlib.Core.Bool.{Bool, true, ◌&&◌, not}
use mathlib.Core.List.{List, [], ◌∷◌, ◌++◌}
use Prim.Native.Nat.{ℕ}
use mathlib.Core.Option.{Option, none, some}
use census.Prelude.Tests.{◌==◌, if◌then◌else◌}
use census.Prelude.Lists.{is_empty, filter}
use census.Prelude.Order.{eq_ord, eq_ord_iff}
use census.Prelude.Derived.{nat_ord, list_ord}
use census.Prelude.Strings.{Text, codes, str_eq}

unfoldable cons_first : ℕ → List Text → List Text
cons_first c [] = (c ∷ []) ∷ []
cons_first c (w ∷ ws) = (c ∷ w) ∷ ws

-- The text between slashes.
unfoldable pub segments : Text → List Text
unfolding cons_first
segments [] = [] ∷ []
segments (c ∷ s) = if c == b'/' then [] ∷ segments s else cons_first c (segments s)

-- Neither a repeated slash nor a dot makes a component.
unfoldable pub is_normal : Text → Bool
is_normal w = not (is_empty w) && not (str_eq w (codes "."))

-- A leading dot of a relative path stays.
unfoldable relative : List Text → List Text
unfolding is_normal
relative [] = []
relative (w ∷ ws) = w ∷ filter is_normal ws

-- `Path::components`; the root is the component "/".
unfoldable pub components : Text → List Text
unfolding is_normal relative
components [] = []
components (c ∷ s) =
    if c == b'/' then codes "/" ∷ filter is_normal (segments s) else relative (segments (c ∷ s))

-- `==` on paths
unfoldable pub path_eq : Text → Text → Bool
path_eq p q = eq_ord (components p) (components q)

pub path_eq_iff : (p q : Text) → (path_eq p q ≡ true) ↔ (components p ≡ components q)
unfolding path_eq
path_eq_iff p q = eq_ord_iff (components p) (components q)

pub path_eq_refl : (p : Text) → path_eq p p ≡ true
path_eq_refl p = (path_eq_iff p p).1 refl

pub path_eq_trans : (p q r : Text) → path_eq p q ≡ true → path_eq q r ≡ true → path_eq p r ≡ true
path_eq_trans p q r h k = (path_eq_iff p r).1 ((path_eq_iff p q).0 h ∙ (path_eq_iff q r).0 k)

-- `join` of a relative path.
unfoldable pub join : Text → Text → Text
join [] file = file
join (c ∷ []) file = if c == b'/' then c ∷ file else c ∷ b'/' ∷ file
join (c ∷ d ∷ dir) file = c ∷ join (d ∷ dir) file

-- The components before the last one, and the last.
unfoldable pub split_last : Text → List Text → List Text × Text
split_last w [] = ([], w)
split_last w (v ∷ ws) = let rest = split_last v ws in (w ∷ rest.0, rest.1)

-- The path with these components.
unfoldable render : List Text → Text
render [] = []
render (w ∷ []) = w
render (w ∷ v ∷ ws) =
    if str_eq w (codes "/") then w ++ render (v ∷ ws) else w ++ (b'/' ∷ render (v ∷ ws))

-- A component that is a name.
unfoldable is_name : Text → Bool
is_name w =
    not (str_eq w (codes "/")) && (not (str_eq w (codes ".")) && not (str_eq w (codes "..")))

-- `parent` and `file_name`, where there are both.
unfoldable pub parent_and_name : List Text → Option (Text × Text)
unfolding split_last render is_name
parent_and_name [] = none
parent_and_name (w ∷ ws) =
    let halves = split_last w ws in
    if is_name halves.1 then some (render halves.0, halves.1) else none
