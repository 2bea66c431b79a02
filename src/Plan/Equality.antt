-- ===== src/Plan/Equality.antt =====
-- The set comparisons of src/plan.rs: lengths first, then both sides' keys sorted and compared.
use census.Prelude.{
  suc, ◌∙◌, ◌≡◌, ◌↔◌, refl, ap, Bool, true, false, Option, List, map, Perm, arith, Text, length,
  ◌==◌, if◌then◌else◌, sort, sort-eq_iff_perm, eq_list, eq_list_iff, Ord, nat_ord, bool_ord,
  option_ord, list_ord, pair_ord,
}
use mathlib.Core.List.{Permᴰ}
use native.Mathlib.Nat.{ℕ_set}
use mathlib.Core.Logic.{∥∥₁_elim}
use census.Catalog.Grants.{Access, ResolvedFileGrant}
use census.Model.{SudoCommand}
use census.State.{ManagedFileGrant}

module _ {K : Type 0} ⦃o : Ord K⦄ where
  -- The body that the three comparisons share, over the keys.
  unfoldable pub same_keys : List K → List K → Bool
  same_keys a b = if length a == length b then eq_list (sort a) (sort b) else false

  length-Permᴰ : {a b : List K} → Permᴰ a b → length a ≡ length b
  length-Permᴰ Permᴰ.nil = refl
  length-Permᴰ (Permᴰ.cons e p) = ap suc (length-Permᴰ p)
  length-Permᴰ (Permᴰ.swap e f) = refl
  length-Permᴰ (Permᴰ.trans p q) = length-Permᴰ p ∙ length-Permᴰ q

  length-perm : (a b : List K) → Perm a b → length a ≡ length b
  length-perm a b p = ∥∥₁_elim p (ℕ_set (length a) (length b)) length-Permᴰ

  same_keys_iff : (a b : List K) → (same_keys a b ≡ true) ↔ Perm a b
  unfolding same_keys
  same_keys_iff a b = (
    λ h. (sort-eq_iff_perm a b).0 ((eq_list_iff (sort a) (sort b)).0 (ground arith)),
    λ p.
        ground (
          arith,
          length-perm a b p,
          (eq_list_iff (sort a) (sort b)).1 ((sort-eq_iff_perm a b).1 p),
        ),
  )

unfoldable pub str_set_equal : List Text → List Text → Bool
unfolding same_keys
str_set_equal a b = same_keys a b

-- `sudo_key`
abbrev pub sudo_key : SudoCommand → Text × Option Text
sudo_key c = (c.command, c.runas)

unfoldable pub sudo_set_equal : List SudoCommand → List SudoCommand → Bool
unfolding same_keys
sudo_set_equal a b = same_keys (map sudo_key a) (map sudo_key b)

-- `grant_key`: the path, the whole access value and the recursive flag.
abbrev pub grant_key : Text → Access → Bool → Text × (Access × Bool)
grant_key path access recursive = (path, (access, recursive))

abbrev pub managed_key : ManagedFileGrant → Text × (Access × Bool)
managed_key g = grant_key g.path g.access g.recursive

abbrev pub resolved_key : ResolvedFileGrant → Text × (Access × Bool)
resolved_key g = grant_key g.path g.access g.recursive

unfoldable pub file_grants_set_equal : List ManagedFileGrant → List ResolvedFileGrant → Bool
unfolding same_keys
file_grants_set_equal managed target = same_keys (map managed_key managed) (map resolved_key target)

-- Two lists of texts are accepted when one is a permutation of the other.
pub str_set_equal_iff : (a b : List Text) → (str_set_equal a b ≡ true) ↔ Perm a b
unfolding str_set_equal
str_set_equal_iff a b = same_keys_iff a b

-- The sudo comparison accepts two command sets exactly when their pairs of a command and a run-as
-- user are the same up to order, duplicates counted.
pub sudo_set_equal_iff :
    (a b : List SudoCommand) → (sudo_set_equal a b ≡ true) ↔ Perm (map sudo_key a) (map sudo_key b)
unfolding sudo_set_equal
sudo_set_equal_iff a b = same_keys_iff (map sudo_key a) (map sudo_key b)

-- The comparison of file grants accepts the recorded and the resolved grants exactly when their
-- triples of path, access and recursive flag are the same up to order, duplicates counted.
pub file_grants_set_equal_iff :
    (a : List ManagedFileGrant) (b : List ResolvedFileGrant)
    → (file_grants_set_equal a b ≡ true) ↔ Perm (map managed_key a) (map resolved_key b)
unfolding file_grants_set_equal
file_grants_set_equal_iff a b = same_keys_iff (map managed_key a) (map resolved_key b)
