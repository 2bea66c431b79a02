-- ===== src/Exposure/Reach.antt =====
-- Which inodes a principal can reach at all (src/exposure/reach.rs).
pub mod Climb
pub mod Computed
use census.Prelude.Map
use census.Prelude.{
  zero, true, not, length, suc, map, [], ◌&&◌, ◌∷◌, str_eq, false, any, ◌==◌, some, none,
  if◌then◌else◌, Bool, ℕ, Text, Option, List,
}
use census.Exposure.Access.{effective, InodeRecord, Principal}
use census.Catalog.Paths.{path_at_or_under}

-- What precedes the last slash of a path.
unfoldable pub before_last : Text → Option Text
before_last [] = none
before_last (c ∷ s) = elim (before_last s) [
  | some p ↦ some (c ∷ p)
  | none ↦ if c == b'/' then some [] else none
]

abbrev pub parent_of : Text → Option Text → Text
parent_of path none = path
parent_of path (some []) = b'/' ∷ []
parent_of path (some (c ∷ p)) = c ∷ p

unfoldable pub parent_dir : Text → Text
parent_dir path = parent_of path (before_last path)

-- `PermissionIndex`: its records, and the map from paths to them as a lookup.
pub record PermissionIndex : Type 0 where
  pub records : List InodeRecord
  pub get : Text → Option InodeRecord

abbrev pub searchable : Principal → Option InodeRecord → Bool
searchable principal none = false
searchable principal (some rec) = (effective rec principal).access.execute

unfoldable pub has_search : Text → PermissionIndex → Principal → Bool
has_search path index principal = searchable principal (index.get path)

unfoldable pub within_scope : Text → List Text → Bool
within_scope path roots = any (λ r. path_at_or_under r path) roots

-- The cache of verdicts, the newest first.
abbrev pub Cache : Type 0
Cache = List (Text × Bool)

-- The verdict on a directory inside the scope, from what the climb above it gives.
abbrev pub remember : Text → Bool → Cache → Bool × Cache
remember path verdict cache = (verdict, (path, verdict) ∷ cache)

abbrev pub conclude : Bool → Text → Bool → Cache → Bool × Cache → Bool × Cache
conclude true path here cache above = remember path here cache
conclude false path here cache above = remember path (above.0 && here) above.1

abbrev pub recall : Option Bool → Cache → Bool × Cache → Bool × Cache
recall (some verdict) cache fresh = (verdict, cache)
recall none cache fresh = fresh

-- On fuel; the climb shortens the path at each step, so more fuel than the path's length is enough.
unfoldable pub reachable_dir :
    ℕ → Text → PermissionIndex → Principal → List Text → Cache → Bool × Cache
reachable_dir zero path index principal roots cache = (false, cache)
reachable_dir (suc fuel) path index principal roots cache =
    let parent = parent_dir path in
    let above = reachable_dir fuel parent index principal roots cache in
    if not (within_scope path roots)
    then (true, cache)
    else recall (Map.get path cache) cache
        (conclude (str_eq parent path) path (has_search path index principal) cache above)

-- The loop over the records.
unfoldable pub collect_reachable :
    List InodeRecord → PermissionIndex → Principal → List Text → Cache → List Text
collect_reachable [] index principal roots cache = []
collect_reachable (rec ∷ records) index principal roots cache =
    let parent = parent_dir rec.path in
    let r = reachable_dir (suc (length parent)) parent index principal roots cache in
    let rest = collect_reachable records index principal roots r.1 in
    if r.0 then rec.path ∷ rest else rest

-- `Reachability::compute`: the set of reachable paths.
unfoldable pub compute : PermissionIndex → Principal → List Text → List Text
compute index principal roots =
    if principal.uid == 0
    then map (λ r. r.path) index.records
    else collect_reachable index.records index principal roots []

unfoldable pub is_reachable : List Text → Text → Bool
is_reachable reachable path = any (λ p. str_eq p path) reachable
