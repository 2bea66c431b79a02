-- ===== src/Declaration/Required.antt =====
-- `required_groups` of src/declaration.rs, name by name.
use census.Prelude.Map
use census.Declaration.{is_valid_group_name, seen_in, GroupSpec, Declaration}
use census.Prelude.{
  All-of_In, sym, subst, All-In, ok-injective, not, str_eq_iff, guard-eq_ok_iff, >>-eq_ok_iff, refl,
  inr, arith, All, ◌↔◌, true, str_eq, inl, ap, ◌∙◌, ◌||◌, ok, none, if◌then◌else◌, false, [],
  Bool-cases, ◌∷◌, ◌≡◌, some, Bool, ℕ, List, Text, Option,
}
use census.Prelude.Map.{Map}
use census.Model.{ResolvedAccount}
use census.Declaration.Gather.{
  required_groups, require_groups, require_composed, pin_declared, check_names,
}

-- The accounts bring the name along.
unfoldable pub composed : Text → List ResolvedAccount → Bool
composed n [] = false
composed n (a ∷ resolved) = seen_in a.groups n || composed n resolved

-- The pin of the last declared group that has the name.
unfoldable pub declared_pin : Text → List GroupSpec → Option (Option ℕ)
declared_pin n [] = none
declared_pin n (g ∷ groups) = elim (declared_pin n groups) [
  | some p ↦ some p
  | none ↦ if str_eq g.name n then some g.gid else none
]

abbrev pub or_entry : Option (Option ℕ) → Bool → Option (Option ℕ)
or_entry (some v) b = some v
or_entry none b = if b then some none else none

abbrev pub or_pin : Option (Option ℕ) → Option (Option ℕ) → Option (Option ℕ)
or_pin none o = o
or_pin (some p) o = some p

-- The declared pin of a declared group, no pin for a name that only accounts bring along, and
-- nothing for every other name.
abbrev pub wanted : Declaration → List ResolvedAccount → Text → Option (Option ℕ)
wanted d resolved n = or_pin (declared_pin n d.groups) (or_entry none (composed n resolved))

or_entry-or : (o : Option (Option ℕ)) (a b : Bool) → or_entry (or_entry o a) b ≡ or_entry o (a || b)
or_entry-or none true b = refl
or_entry-or none false b = refl
or_entry-or (some v) a b = refl

get-require_groups :
    (gs : List Text) (out : Map (Option ℕ)) (n : Text)
    → Map.get n (require_groups gs out) ≡ or_entry (Map.get n out) (seen_in gs n)
unfolding require_groups
get-require_groups [] out n = go (Map.get n out)
  where
    go : (o : Option (Option ℕ)) → o ≡ or_entry o false
    go none = refl
    go (some v) = refl
get-require_groups (g ∷ gs) out n = elim (Bool-cases (Map.contains_key g out)) [
  | inl e ↦ rw e (get-require_groups gs out n ∙ known (str_eq g n) (Map.contains_key-get g out e))
  | inr e ↦ rw e (
      get-require_groups gs (Map.insert g none out) n
      ∙ ground (arith, Map.get-insert g n none out, Map.contains_key-none g out e, str_eq_iff g n))
]
  where
    known :
        (b : Bool)
        → (v : Option ℕ) × (Map.get g out ≡ some v)
        → or_entry (Map.get n out) (seen_in gs n)
          ≡ or_entry (Map.get n out) (str_eq g n || seen_in gs n)
    known b k = ground (arith, k.1, str_eq_iff g n)

get-require_composed :
    (resolved : List ResolvedAccount) (out : Map (Option ℕ)) (n : Text)
    → Map.get n (require_composed resolved out) ≡ or_entry (Map.get n out) (composed n resolved)
unfolding require_composed composed
get-require_composed [] out n = go (Map.get n out)
  where
    go : (o : Option (Option ℕ)) → o ≡ or_entry o false
    go none = refl
    go (some v) = refl
get-require_composed (a ∷ resolved) out n =
    get-require_composed resolved (require_groups a.groups out) n
    ∙ (ap (λ o. or_entry o (composed n resolved)) (get-require_groups a.groups out n)
        ∙ or_entry-or (Map.get n out) (seen_in a.groups n) (composed n resolved))

get-pin_declared :
    (groups : List GroupSpec) (out : Map (Option ℕ)) (n : Text)
    → Map.get n (pin_declared groups out) ≡ or_pin (declared_pin n groups) (Map.get n out)
unfolding pin_declared declared_pin
get-pin_declared [] out n = refl
get-pin_declared (g ∷ groups) out n =
    get-pin_declared groups (Map.insert g.name g.gid out) n
    ∙ (ap (or_pin (declared_pin n groups)) (Map.get-insert g.name n g.gid out) ∙ ground arith)

check_names_iff :
    (out : Map (Option ℕ))
    → (check_names out ≡ ok tt) ↔ All (λ e. is_valid_group_name e.0 ≡ true) out
unfolding check_names
check_names_iff [] = (λ h. tt, λ h. refl)
check_names_iff ((n, p) ∷ out) = (
  λ h.
      let g = (guard-eq_ok_iff (not (is_valid_group_name n)) _ _ tt).0 h in
      (ground arith, (check_names_iff out).0 g.1),
  λ a.
      (guard-eq_ok_iff (not (is_valid_group_name n)) _ _ tt).1
        (ground (arith, a.0), (check_names_iff out).1 a.1),
)

require_groups-IsMap :
    (gs : List Text) (out : Map (Option ℕ)) → Map.IsMap out → Map.IsMap (require_groups gs out)
unfolding require_groups
require_groups-IsMap [] out m = m
require_groups-IsMap (g ∷ gs) out m = elim (Bool-cases (Map.contains_key g out)) [
  | inl e ↦ rw e (require_groups-IsMap gs out m)
  | inr e ↦ rw e (require_groups-IsMap gs _ (Map.insert-IsMap g none out m))
]

require_composed-IsMap :
    (resolved : List ResolvedAccount) (out : Map (Option ℕ))
    → Map.IsMap out
    → Map.IsMap (require_composed resolved out)
unfolding require_composed
require_composed-IsMap [] out m = m
require_composed-IsMap (a ∷ resolved) out m =
    require_composed-IsMap resolved _ (require_groups-IsMap a.groups out m)

pin_declared-IsMap :
    (groups : List GroupSpec) (out : Map (Option ℕ))
    → Map.IsMap out
    → Map.IsMap (pin_declared groups out)
unfolding pin_declared
pin_declared-IsMap [] out m = m
pin_declared-IsMap (g ∷ groups) out m =
    pin_declared-IsMap groups _ (Map.insert-IsMap g.name g.gid out m)

module _ (d : Declaration) (resolved : List ResolvedAccount) where
  abbrev all_required : Map (Option ℕ)
  all_required = pin_declared d.groups (require_composed resolved [])

  get-all_required : (n : Text) → Map.get n all_required ≡ wanted d resolved n
  unfolding Map.get
  get-all_required n =
      get-pin_declared d.groups (require_composed resolved []) n
      ∙ ap (or_pin (declared_pin n d.groups)) (get-require_composed resolved [] n)

  all_required-IsMap : Map.IsMap all_required
  all_required-IsMap = pin_declared-IsMap d.groups _ (require_composed-IsMap resolved [] tt)

  -- Every name that is wanted is a valid group name.
  pub record NamesFit : Type 0 where
    pub fits :
        (n : Text) (p : Option ℕ) → wanted d resolved n ≡ some p → is_valid_group_name n ≡ true

  -- The required groups are computed exactly when every name that is wanted is a valid group name,
  -- and the result then holds, for each name, what is wanted of it, in the order of the names.
  pub required_groups-ok_iff :
      (m : Map (Option ℕ))
      → (required_groups d resolved ≡ ok m) ↔ (
          NamesFit
          × Map.IsMap m
          × (m ≡ pin_declared d.groups (require_composed resolved []))
          × ((n : Text) → Map.get n m ≡ wanted d resolved n))
  unfolding required_groups
  required_groups-ok_iff m = (
    λ h.
        let r = (>>-eq_ok_iff (check_names all_required) (ok all_required) m).0 h in
        let e : all_required ≡ m = ok-injective r.1 in
        (
          record {
            fits = λ n p w.
                All-In _ all_required ((check_names_iff all_required).0 r.0) (n, p)
                  (Map.In-of_get n p all_required (get-all_required n ∙ w));
          },
          subst Map.IsMap e all_required-IsMap,
          sym e,
          λ n. ap (Map.get n) (sym e) ∙ get-all_required n,
        ),
    λ h. (>>-eq_ok_iff (check_names all_required) (ok all_required) m).1 (
      (check_names_iff all_required).1 (
          All-of_In _ all_required (λ x i. h.0.fits x.0 x.1 (
            sym (get-all_required x.0) ∙ Map.get_of_In x.0 x.1 all_required all_required-IsMap i))),
      ap ok (sym h.2),
    ),
  )
