-- ===== src/Exposure/Scope.antt =====
-- The default scan roots, and the roots that no walk enters (src/exposure/scope.rs).
use census.Prelude.{path_eq, any, [], ◌∷◌, Bool, Text, List, codes}

abbrev pub default_roots : List Text
default_roots =
    codes "/etc"
    ∷ codes "/var"
    ∷ codes "/opt"
    ∷ codes "/usr/local"
    ∷ codes "/srv"
    ∷ codes "/home"
    ∷ codes "/root"
    ∷ []

abbrev pub pseudo_fs_roots : List Text
pseudo_fs_roots = codes "/proc" ∷ codes "/sys" ∷ codes "/dev" ∷ codes "/run" ∷ []

unfoldable pub is_pseudo_fs : Text → Bool
is_pseudo_fs path = any (λ p. path_eq path p) pseudo_fs_roots
