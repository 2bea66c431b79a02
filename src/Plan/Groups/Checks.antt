-- ===== src/Plan/Groups/Checks.antt =====
-- The checks of `diff_groups` (src/plan.rs).
use census.Prelude.Map
use census.Prelude.Map.{Map}
use census.Prelude.{
  ok-injective, >>=-eq_ok, sym, str_eq_iff, refl, arith, [], >>-eq_ok_iff, ◌++◌, ◌∷◌, ◌↔◌, ok, none,
  ◌≡◌, List, All, ℕ, some, Text, Option,
}
use census.Plan.Groups.{
  deletes_of, owner_of, check_owner, GidOwners, required_action, diff_groups, creates_of,
  check_drifts, check_drift,
}
use census.Inspect.{GroupFacts}
use census.State.{ManagedGroup}
use census.Plan.{GroupAction}

-- A pin is the GID of the group that has the name, or is held by nobody else.
abbrev pub OwnedBy : Text → Option Text → Type 0
OwnedBy name none = Unit
OwnedBy name (some owner) = owner ≡ name

abbrev pub PinFits : Text → Option ℕ → Option GroupFacts → (ℕ → Option Text) → Type 0
PinFits name none facts owner = Unit
PinFits name (some pinned) (some facts) owner = pinned ≡ facts.gid
PinFits name (some pinned) none owner = OwnedBy name (owner pinned)

-- A recorded GID is the live one, where both are known.
abbrev pub NoDrift : Option GroupFacts → Option ℕ → Type 0
NoDrift (some facts) (some recorded) = facts.gid ≡ recorded
NoDrift (some facts) none = Unit
NoDrift none recorded = Unit

-- No pin and no recorded GID conflicts with the live system.
pub record IsSafe (required : Map (Option ℕ)) (managed : Map ManagedGroup)
    (facts : Text → Option GroupFacts) (owner : ℕ → Option Text) : Type 0 where
  pub pins : All (λ e. PinFits e.0 e.1 (facts e.0) owner) required
  pub drift : All (λ e. NoDrift (facts e.0) e.1.gid) managed

abbrev pub missing_one : Text → Option ℕ → Option GroupFacts → List GroupAction
missing_one name pin none = GroupAction.create name pin ∷ []
missing_one name pin (some f) = []

-- The required groups that the system does not have.
unfoldable pub missing : Map (Option ℕ) → (Text → Option GroupFacts) → List GroupAction
missing [] facts = []
missing ((name, pin) ∷ required) facts = missing_one name pin (facts name) ++ missing required facts

check_owner_iff :
    (name : Text) (pinned : ℕ) (o : Option Text)
    → (check_owner name pinned o ≡ ok tt) ↔ OwnedBy name o
check_owner_iff name pinned none = (λ h. tt, λ h. refl)
check_owner_iff name pinned (some owner) =
    (λ h. ground (arith, str_eq_iff owner name), λ h. ground (arith, str_eq_iff owner name))

required_action_iff :
    (name : Text) (pin : Option ℕ) (f : Option GroupFacts) (owners : GidOwners)
    (l : List GroupAction)
    → (required_action name pin f owners ≡ ok l)
      ↔ (PinFits name pin f (λ g. owner_of g owners) × (l ≡ missing_one name pin f))
unfolding required_action
required_action_iff name none (some f) owners l = (λ h. (tt, sym (ok-injective h)), λ h. rw h.1)
required_action_iff name (some p) (some f) owners l = (λ h. ground arith, λ h. ground arith)
required_action_iff name none none owners l = (λ h. (tt, sym (ok-injective h)), λ h. rw h.1)
required_action_iff name (some p) none owners l = (
  λ h.
      let r = (>>-eq_ok_iff _ _ l).0 h in
      ((check_owner_iff name p (owner_of p owners)).0 r.0, sym (ok-injective r.1)),
  λ h. (>>-eq_ok_iff _ _ l).1 ((check_owner_iff name p (owner_of p owners)).1 h.0, rw h.1),
)

creates_of_iff :
    (required : Map (Option ℕ)) (live : Map GroupFacts) (owners : GidOwners) (l : List GroupAction)
    → (creates_of required live owners ≡ ok l) ↔ (
        All (λ e. PinFits e.0 e.1 (Map.get e.0 live) (λ g. owner_of g owners)) required
        × (l ≡ missing required (λ n. Map.get n live)))
unfolding creates_of missing
creates_of_iff [] live owners l = (λ h. (tt, sym (ok-injective h)), λ h. rw h.1)
creates_of_iff ((name, pin) ∷ required) live owners l = (
  λ h.
      let r = >>=-eq_ok (required_action name pin (Map.get name live) owners) _ l h in
      let q = >>=-eq_ok (creates_of required live owners) _ l r.2 in
      let s = (required_action_iff name pin (Map.get name live) owners r.0).0 r.1 in
      let t = (creates_of_iff required live owners q.0).0 q.1 in ((s.0, t.0), cc (s.1, t.1, q.2)),
  λ h. rw (
    (required_action_iff name pin (Map.get name live) owners _).1 (h.0.0, refl),
    (creates_of_iff required live owners _).1 (h.0.1, refl),
    h.1,
  ),
)

check_drift_iff :
    (name : Text) (f : Option GroupFacts) (r : Option ℕ)
    → (check_drift name f r ≡ ok tt) ↔ NoDrift f r
unfolding check_drift
check_drift_iff name none r = (λ h. tt, λ h. refl)
check_drift_iff name (some f) none = (λ h. tt, λ h. refl)
check_drift_iff name (some f) (some r) = (λ h. ground arith, λ h. ground arith)

check_drifts_iff :
    (managed : Map ManagedGroup) (live : Map GroupFacts)
    → (check_drifts managed live ≡ ok tt) ↔ All (λ e. NoDrift (Map.get e.0 live) e.1.gid) managed
unfolding check_drifts
check_drifts_iff [] live = (λ h. tt, λ h. refl)
check_drifts_iff ((name, mg) ∷ managed) live = (
  λ h.
      let r = (>>-eq_ok_iff (check_drift name (Map.get name live) mg.gid) _ tt).0 h in
      ((check_drift_iff name _ mg.gid).0 r.0, (check_drifts_iff managed live).0 r.1),
  λ a.
      (>>-eq_ok_iff (check_drift name (Map.get name live) mg.gid) _ tt).1
        ((check_drift_iff name _ mg.gid).1 a.0, (check_drifts_iff managed live).1 a.1),
)

-- The diff succeeds exactly when no pin and no recorded GID conflicts, and then returns the
-- missing groups to create, followed by the orphans to delete.
pub diff_groups-ok_iff :
    (required : Map (Option ℕ)) (managed : Map ManagedGroup) (live : Map GroupFacts)
    (owners : GidOwners) (l : List GroupAction)
    → (diff_groups required managed live owners ≡ ok l) ↔ (
        IsSafe required managed (λ n. Map.get n live) (λ g. owner_of g owners)
        × (l ≡ missing required (λ n. Map.get n live) ++ deletes_of required managed))
unfolding diff_groups
diff_groups-ok_iff required managed live owners l = (
  λ h.
      let r = >>=-eq_ok (creates_of required live owners) _ l h in
      let q = (>>-eq_ok_iff (check_drifts managed live) _ l).0 r.2 in
      let s = (creates_of_iff required live owners r.0).0 r.1 in
      (record { pins = s.0; drift = (check_drifts_iff managed live).0 q.0 }, cc (s.1, q.1)),
  λ h. rw (
    (creates_of_iff required live owners _).1 (h.0.pins, refl),
    (check_drifts_iff managed live).1 h.0.drift,
    h.1,
  ),
)
