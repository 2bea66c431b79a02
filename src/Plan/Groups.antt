-- ===== src/Plan/Groups.antt =====
-- `diff_groups` and `diff_groups_via_inspector` of src/plan.rs: which groups have to exist, which
-- go, and the GID conflicts that stop the plan.
pub mod Checks
pub mod Actions
pub mod Live
pub mod Owners
pub mod Inspected
use census.Prelude.Map
use census.Prelude.{
  ◌>>◌, ◌>>=◌, str_eq, err, ◌&&◌, not, [], ◌==◌, some, ok, if◌then◌else◌, ◌++◌, ◌∷◌, none, Result,
  Option, ℕ, Text, List,
}
use census.Prelude.Map.{Map}
use census.State.{ManagedGroup}
use census.Plan.{
  pinned_gid_mismatch, managed_gid_drift, gid_pin_conflict, GroupPlanError, GroupAction,
}
use census.Inspect.{GroupInspector, GroupFacts}
use census.Model.{created, same_provenance}

-- `BTreeMap<u32, String>`: the live group that owns a GID.
abbrev pub GidOwners : Type 0
GidOwners = List (ℕ × Text)

unfoldable pub owner_of : ℕ → GidOwners → Option Text
owner_of gid [] = none
owner_of gid ((g, owner) ∷ l) = if g == gid then some owner else owner_of gid l

-- A required group that is live: a pin has to be its GID.
abbrev pub check_live : Text → Option ℕ → GroupFacts → Result GroupPlanError (List GroupAction)
check_live name none facts = ok []
check_live name (some pinned) facts =
    if not (pinned == facts.gid) then err (pinned_gid_mismatch name facts.gid pinned) else ok []

-- A required group that is not live: nobody else may hold its pin.
abbrev pub check_owner : Text → ℕ → Option Text → Result GroupPlanError (Unit {0})
check_owner name pinned none = ok tt
check_owner name pinned (some owner) =
    if not (str_eq owner name) then err (gid_pin_conflict name pinned owner) else ok tt

abbrev pub check_pin : Text → Option ℕ → GidOwners → Result GroupPlanError (Unit {0})
check_pin name none gid_owners = ok tt
check_pin name (some pinned) gid_owners = check_owner name pinned (owner_of pinned gid_owners)

-- One round of the first loop, from the live facts of the group.
unfoldable pub required_action :
    Text → Option ℕ → Option GroupFacts → GidOwners → Result GroupPlanError (List GroupAction)
required_action name pin (some facts) gid_owners = check_live name pin facts
required_action name pin none gid_owners = do
  check_pin name pin gid_owners
  ok (GroupAction.create name pin ∷ [])

unfoldable pub creates_of :
    Map (Option ℕ) → Map GroupFacts → GidOwners → Result GroupPlanError (List GroupAction)
creates_of [] live gid_owners = ok []
creates_of ((name, pin) ∷ required) live gid_owners = do
  first ← required_action name pin (Map.get name live) gid_owners
  rest ← creates_of required live gid_owners
  ok (first ++ rest)

-- One round of the second loop.
unfoldable pub check_drift : Text → Option GroupFacts → Option ℕ → Result GroupPlanError (Unit {0})
check_drift name (some facts) (some recorded) =
    if not (facts.gid == recorded) then err (managed_gid_drift name facts.gid recorded) else ok tt
check_drift name _ _ = ok tt

unfoldable pub check_drifts : Map ManagedGroup → Map GroupFacts → Result GroupPlanError (Unit {0})
check_drifts [] live = ok tt
check_drifts ((name, mg) ∷ managed) live = do
  check_drift name (Map.get name live) mg.gid
  check_drifts managed live

-- The third loop: only a group that Census created is deleted.
unfoldable pub deletes_of : Map (Option ℕ) → Map ManagedGroup → List GroupAction
deletes_of required [] = []
deletes_of required ((name, mg) ∷ managed) =
    if not (Map.contains_key name required) && same_provenance mg.provenance created
    then GroupAction.delete name ∷ deletes_of required managed
    else deletes_of required managed

unfoldable pub diff_groups :
    Map (Option ℕ)
    → Map ManagedGroup
    → Map GroupFacts
    → GidOwners
    → Result GroupPlanError (List GroupAction)
diff_groups required managed_groups live gid_owners = do
  creates ← creates_of required live gid_owners
  check_drifts managed_groups live
  ok (creates ++ deletes_of required managed_groups)

-- The live facts of the names that matter, each asked once.
unfoldable pub collect_live :
    (Text → Option GroupFacts) → List Text → Map GroupFacts → Map GroupFacts
collect_live group [] live = live
collect_live group (name ∷ names) live = collect_live group names (
    if Map.contains_key name live
    then live
    else (elim (group name) [ none ↦ live | some facts ↦ Map.insert name facts live ]))

-- The live owner of each pinned GID, each asked once.
unfoldable pub collect_owners : (ℕ → Option Text) → Map (Option ℕ) → GidOwners → GidOwners
collect_owners owner [] owners = owners
collect_owners owner ((name, none) ∷ required) owners = collect_owners owner required owners
collect_owners owner ((name, some pin) ∷ required) owners =
    collect_owners owner required (elim (owner_of pin owners) [
      | some o ↦ owners
      | none ↦ elim (owner pin) [ none ↦ owners | some o ↦ (pin, o) ∷ owners ]
    ])

unfoldable pub diff_groups_via_inspector :
    Map (Option ℕ) → Map ManagedGroup → GroupInspector → Result GroupPlanError (List GroupAction)
diff_groups_via_inspector required managed_groups inspector =
    diff_groups required managed_groups
      (collect_live inspector.group (Map.keys required ++ Map.keys managed_groups) [])
      (collect_owners inspector.group_name_by_gid required [])
