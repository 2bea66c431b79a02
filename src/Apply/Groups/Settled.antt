-- ===== src/Apply/Groups/Settled.antt =====
-- `build_managed_groups` of src/apply.rs against `diff_resolved_groups` of src/plan.rs, one run
-- after another.
use mathlib.Core.List.Perm
use census.Prelude.Map
use census.Prelude.Map.{Map}
use census.Apply.Groups.{build_managed_groups, group_record_for}
use census.State.{GroupBaseline, ManagedGroup}
use census.Prelude.{
  [], ap, ◌∙◌, sym, In-append_right, false, subst, In, true, some, map, ◌≡◌, Perm, Text, List, ℕ,
  Option,
}
use census.Inspect.{GroupFacts}
use census.Model.{ResolvedGroup}
use census.Plan.Declared.Sync.{diff_group_fields-nil_iff, GroupInSync}
use census.Plan.Declared.{
  diff_group_fields, declared_actions, is_declared_group, retire, diff_resolved_groups,
}
use census.Prelude.{Distinct}
use census.Apply.Groups.Written.{
  get-carry_forward, get-add_created, last_named-none, get-overlay, last_named-some, last_named,
}
use census.Plan.{GroupAction}
use census.Plan.Equality.{resolved_key, sudo_key}
use census.Plan.Declared.Actions.{DeclaredJustified}
use census.Apply.Accounts.Settled.{grant_keys}
use census.Plan.Declared.Exact.{resolved_groups-actions_iff}
use census.Plan.Declared.Emitted.{Retirement-In}

-- A declared group is in sync with the record that an apply writes for it.
group_record_for-InSync :
    (prior : Map ManagedGroup) (adopt_baselines : Map GroupBaseline) (version : ℕ)
    (group : Text → Option GroupFacts) (t : ResolvedGroup)
    → GroupInSync t (group_record_for prior adopt_baselines version group t)
unfolding group_record_for
group_record_for-InSync prior adopt_baselines version group t = record {
  sudo_commands = Perm.refl (map sudo_key t.sudo_commands);
  file_grants =
      subst (λ l. Perm l (map resolved_key t.file_grants)) (sym (grant_keys t.file_grants))
        (Perm.refl _);
  members = Perm.refl t.members;
}

module _ (required : Map (Option ℕ)) (resolved_groups : List ResolvedGroup)
    (prior : Map ManagedGroup) (new : List (Text × Option ℕ)) (adopt_baselines : Map GroupBaseline)
    (version : ℕ) (group : Text → Option GroupFacts) where
  -- The registry that the next run reads.
  abbrev next_groups : Map ManagedGroup
  next_groups =
      build_managed_groups required resolved_groups prior new adopt_baselines version group

  get-next_groups :
      (n : Text) (rg : ResolvedGroup)
      → last_named n resolved_groups ≡ some rg
      → Map.get n next_groups ≡ some (group_record_for prior adopt_baselines version group rg)
  unfolding build_managed_groups
  get-next_groups n rg e =
      get-overlay (group_record_for prior adopt_baselines version group) resolved_groups _ n ∙ rw e

  -- An apply settles the declared groups: where no name is declared twice, the next run on the same
  -- groups creates, adopts and updates none of them, and all that it plans is to delete or release a
  -- recorded group that is not declared.
  pub next_groups-retirements :
      Distinct (map (λ (g : ResolvedGroup). g.name) resolved_groups)
      → (a : GroupAction) → In a (diff_resolved_groups resolved_groups next_groups)
      → (n : Text) × (mg : ManagedGroup) × In (n, mg) next_groups
        × (is_declared_group resolved_groups n ≡ false)
        × (a ≡ retire n mg.provenance)
  unfolding retire
  next_groups-retirements d a i =
      go a ((resolved_groups-actions_iff resolved_groups next_groups a).0 i)
    where
      found :
          (t : ResolvedGroup)
          → In t resolved_groups
          → Map.get t.name next_groups
            ≡ some (group_record_for prior adopt_baselines version group t)
      found t i = get-next_groups t.name t (last_named-some t resolved_groups d i)

      go :
          (b : GroupAction)
          → DeclaredJustified resolved_groups next_groups b
          → (n : Text) × (mg : ManagedGroup) × In (n, mg) next_groups
            × (is_declared_group resolved_groups n ≡ false)
            × (b ≡ retire n mg.provenance)
      go (GroupAction.create n g) (j, e) = absurd (cc (j.absent, found j.target j.listed))
      go (GroupAction.adopt n) j = absurd (cc (j.absent, found j.target j.listed))
      go (GroupAction.update n l) j =
          let t = j.target in
          let same : j.current ≡ group_record_for prior adopt_baselines version group t =
            cc (j.found, found t j.listed) in
          absurd (
            j.some_change (
              j.what
              ∙ (ap (diff_group_fields t) same
                  ∙ (diff_group_fields-nil_iff t _).1
                      (group_record_for-InSync prior adopt_baselines version group t))))
      go (GroupAction.delete n) j =
          (n, j.group, j.recorded, j.undeclared, sym (ap (retire n) j.provenance))
      go (GroupAction.release n) j =
          (n, j.group, j.recorded, j.undeclared, sym (ap (retire n) j.provenance))

  get-carried :
      (n : Text) (p : ManagedGroup)
      → Map.IsMap prior
      → Map.get n prior ≡ some p
      → Map.contains_key n required ≡ true
      → is_declared_group resolved_groups n ≡ false
      → Map.get n next_groups ≡ some p
  unfolding build_managed_groups
  get-carried n p w g r u =
      get-overlay (group_record_for prior adopt_baselines version group) resolved_groups _ n
      ∙ rw (last_named-none n resolved_groups u) (
          get-add_created required new version group _ n p
            (get-carry_forward required prior [] n p w g r))

  -- A recorded group that is required but not declared keeps its record, unchanged, and the diff of
  -- declared groups plans its delete (its release, if it was adopted) again on every run.
  pub required_group-retired_again :
      (n : Text) (p : ManagedGroup)
      → Map.IsMap prior
      → Map.get n prior ≡ some p
      → Map.contains_key n required ≡ true
      → is_declared_group resolved_groups n ≡ false
      → (Map.get n next_groups ≡ some p)
        × In (retire n p.provenance) (diff_resolved_groups resolved_groups next_groups)
  unfolding diff_resolved_groups
  required_group-retired_again n p w g r u =
      let e = get-carried n p w g r u in
      (
        e,
        In-append_right _ (declared_actions resolved_groups next_groups) _
            (Retirement-In resolved_groups next_groups n p (Map.In-of_get n p next_groups e) u),
      )
