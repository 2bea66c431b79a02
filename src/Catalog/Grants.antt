-- ===== src/Catalog/Grants.antt =====
-- `Access`, `Shape`, `FileGrant` and the union of resolved file grants (src/catalog.rs).
pub mod Merged
pub mod Union
use Prim.Native.Nat.{bit_and, bit_or}
use census.Prelude.{
  ℕ, ◌≡◌, refl, Bool, true, false, ◌||◌, Option, none, some, List, [], ◌∷◌, ◌++◌, Text, codes,
  str_eq, any, ◌==◌, if◌then◌else◌,
}

-- `Access(u8)`: a set of four bits.
abbrev pub Access : Type 0
Access = ℕ

abbrev pub read : Access
read = 0b0001

abbrev pub write : Access
write = 0b0010

abbrev pub execute : Access
execute = 0b0100

abbrev pub traverse : Access
traverse = 0b1000

abbrev pub ro : Access
ro = bit_or read traverse

abbrev pub rw_access : Access
rw_access = bit_or (bit_or read write) traverse

unfoldable pub contains : Access → Access → Bool
contains a bit = bit_and a bit == bit

-- `Access::union`
unfoldable pub union : Access → Access → Access
union a b = bit_or a b

pub data Shape : Type 0 where
  dir file pattern_shape : Shape

pub record FileGrant : Type 0 where
  pub path : Text
  pub access : Access
  pub recursive : Bool

pub record SourcedFileGrant : Type 0 where
  pub layer : Text
  pub via : Option Text
  pub binding : Option Text

pub record ResolvedFileGrant : Type 0 where
  pub path : Text
  pub access : Access
  pub recursive : Bool
  pub shape : Shape
  pub sources : List SourcedFileGrant

-- `*`, `?` and `[`.
unfoldable pub has_glob_metachar : Text → Bool
has_glob_metachar p = any (λ c. c == b'*' || c == b'?' || c == b'[') p

abbrev pub ends_with_slash : Text → Bool
ends_with_slash [] = false
ends_with_slash (c ∷ []) = c == b'/'
ends_with_slash (c ∷ d ∷ s) = ends_with_slash (d ∷ s)

unfoldable pub shape_of : FileGrant → Shape
unfolding has_glob_metachar
shape_of g =
    if has_glob_metachar g.path
    then pattern_shape
    else if g.recursive || ends_with_slash g.path
    then dir
    else file

-- The wider of the two accesses, from what both grants allow; the shape follows.
unfoldable pub absorb : ResolvedFileGrant → ResolvedFileGrant → ResolvedFileGrant
unfolding union shape_of
absorb e grant =
    let access = union e.access grant.access in
    let recursive = e.recursive || grant.recursive in
    record {
      path = e.path;
      access = access;
      recursive = recursive;
      shape = shape_of (record { path = e.path; access = access; recursive = recursive });
      sources = e.sources ++ grant.sources;
    }

-- The entry that has the path of `grant` absorbs it; otherwise it goes to the end.
unfoldable pub merge_grant : ResolvedFileGrant → List ResolvedFileGrant → List ResolvedFileGrant
merge_grant grant [] = grant ∷ []
merge_grant grant (e ∷ out) =
    if str_eq e.path grant.path then absorb e grant ∷ out else e ∷ merge_grant grant out

unfoldable pub union_into : List ResolvedFileGrant → List ResolvedFileGrant → List ResolvedFileGrant
union_into out [] = out
union_into out (g ∷ grants) = union_into (merge_grant g out) grants

unfoldable pub union_resolved_file_grants : List ResolvedFileGrant → List ResolvedFileGrant
union_resolved_file_grants grants = union_into [] grants
