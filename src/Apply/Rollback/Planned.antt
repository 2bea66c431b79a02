-- ===== src/Apply/Rollback/Planned.antt =====
-- The mutating phases of src/apply.rs, all together: what the gathered paths cover, they touch.
use census.Prelude.{subst, map, [], ◌∷◌, ◌≡◌, Text, List, In, refl}
use census.Apply.Rollback.Setup.{Saved, SafePhase, chain, each}
use census.Apply.Rollback.Phases.{
  delete_group-SafePhase, revoke_deleted-SafePhase, file_access-SafePhase, account-SafePhase,
  create_group-SafePhase, ActionSaved,
}
use census.Apply.Rollback.PhasesGroups.{
  group_grant-SafePhase, resolved_group-name, GroupSaved, GrantSaved, StripSaved,
}
use census.Apply.Prepare.{ApplyInputs, Prepared}
use census.Apply.Seams.{RespectsPaths}
use census.Plan.{GroupAction, Action}
use census.Apply.Rollback.Covered.{
  Within-map, Within-append_right, Within-append_left, push_paths-covers, push_paths-keeps, Within,
}
use census.Apply.Run.{mutate, file_access_paths, sudoers_paths}
use census.Apply.Touched.{
  stripped_paths, group_file_access_touched_paths, granted_paths, resolved_group_by_name,
  group_action_paths, fragment_path, touched_sudoers_paths, touched_group_sudoers_paths,
  group_action_name, file_access_touched_paths,
}
use census.Apply.Rollback.Touched.{touched-revoked, touched-targets}
use census.Sudoers.{sudoers_group_path}
use census.Apply.Reconcile.{action_name}
use census.Apply.Rollback.TouchedGroups.{
  granted_paths-removed, touched-group_action, stripped_paths-removed, granted_paths-covers,
}
use census.Apply.Prepare.Plans.{FromTargets}

module _ {P F A C D : Type 0} (c : Saved P F A C D) (respects_fragments : RespectsPaths c.sp)
    (respects_paths : RespectsPaths c.sf) (inputs : ApplyInputs P) (prep : Prepared)
    (same_dir : c.sudoers_dir ≡ inputs.sudoers_dir)
    (fragments_saved : Within c.sp (sudoers_paths inputs prep) c.fragments)
    (paths_saved : Within c.sf (file_access_paths inputs prep) c.paths) where
  account_fragment :
      (a : Action)
      → In a prep.plan.actions
      → Within c.sp (fragment_path c.sudoers_dir (action_name a) ∷ []) c.fragments
  unfolding sudoers_paths touched_sudoers_paths
  account_fragment a i q h =
      let all = map (λ b. fragment_path inputs.sudoers_dir (action_name b)) prep.plan.actions in
      fragments_saved q (
        Within-append_left c.sp (touched_sudoers_paths prep.plan.actions inputs.sudoers_dir)
          (touched_group_sudoers_paths prep.rgroup_actions inputs.sudoers_dir) q
          (push_paths-covers c.sp respects_fragments all [] q (
            Within-map c.sp (λ b. fragment_path inputs.sudoers_dir (action_name b)) a
              prep.plan.actions i q (rw same_dir at h))))

  group_fragment :
      (ga : GroupAction)
      → In ga prep.rgroup_actions
      → Within c.sp (sudoers_group_path c.sudoers_dir (group_action_name ga) ∷ []) c.fragments
  unfolding sudoers_paths touched_group_sudoers_paths
  group_fragment ga i q h =
      let all =
        map (λ b. sudoers_group_path inputs.sudoers_dir (group_action_name b))
          prep.rgroup_actions in
      fragments_saved q (
        Within-append_right c.sp (touched_sudoers_paths prep.plan.actions inputs.sudoers_dir)
          (touched_group_sudoers_paths prep.rgroup_actions inputs.sudoers_dir) q
          (push_paths-covers c.sp respects_fragments all [] q (
            Within-map c.sp (λ b. sudoers_group_path inputs.sudoers_dir (group_action_name b)) ga
              prep.rgroup_actions i q (rw same_dir at h))))

  account_paths_saved :
      Within c.sf
        (file_access_touched_paths prep.plan.actions prep.targets inputs.state.accounts)
        c.paths
  unfolding file_access_paths
  account_paths_saved q h = paths_saved q (
      push_paths-keeps c.sf respects_paths
        (group_file_access_touched_paths prep.rgroup_actions prep.resolved_groups
          inputs.state.groups)
        (file_access_touched_paths prep.plan.actions prep.targets inputs.state.accounts) q h)

  action-ActionSaved :
      FromTargets prep
      → (a : Action) → In a prep.plan.actions
      → ActionSaved c inputs.state.accounts a
  action-ActionSaved t a i = record {
    granted_saved = λ acct e q h. account_paths_saved q (
        touched-targets c.sf respects_paths prep.plan.actions prep.targets inputs.state.accounts
          acct (t a acct i e) q h);
    revoked_saved = λ q h. account_paths_saved q (
        touched-revoked c.sf respects_paths prep.plan.actions prep.targets inputs.state.accounts a i
          q h);
  }

  group_paths_saved :
      (ga : GroupAction) (ps : List Text)
      → ((qs : List Text)
          → Within c.sf ps (group_action_paths ga prep.resolved_groups inputs.state.groups qs))
      → In ga prep.rgroup_actions
      → Within c.sf ps c.paths
  unfolding file_access_paths
  group_paths_saved ga ps w i q h = paths_saved q (
      push_paths-covers c.sf respects_paths
        (group_file_access_touched_paths prep.rgroup_actions prep.resolved_groups
          inputs.state.groups)
        (file_access_touched_paths prep.plan.actions prep.targets inputs.state.accounts) q
        (touched-group_action c.sf respects_paths prep.resolved_groups inputs.state.groups
          prep.rgroup_actions ga ps w i q h))

  abbrev Grants : GroupAction → Text → Type 0
  Grants ga name =
      (qs : List Text)
      → group_action_paths ga prep.resolved_groups inputs.state.groups qs
        ≡ granted_paths name prep.resolved_groups inputs.state.groups qs

  grant-GrantSaved :
      (ga : GroupAction) (name : Text)
      → group_action_name ga ≡ name
      → Grants ga name
      → In ga prep.rgroup_actions
      → GrantSaved c inputs.state.groups name (resolved_group_by_name prep.resolved_groups name)
  grant-GrantSaved ga name n e i = record {
    named = λ g h. resolved_group-name prep.resolved_groups name g h;
    fragment_saved =
        subst (λ m. Within c.sp (sudoers_group_path c.sudoers_dir m ∷ []) c.fragments) n
          (group_fragment ga i);
    granted_saved =
        group_paths_saved ga _
          (λ qs q h. rw (e qs) (
            granted_paths-covers c.sf respects_paths prep.resolved_groups inputs.state.groups name
              qs q h))
          i;
    removed_saved =
        group_paths_saved ga _
          (λ qs q h. rw (e qs) (
            granted_paths-removed c.sf respects_paths prep.resolved_groups inputs.state.groups name
              qs q h))
          i;
  }

  strip-StripSaved :
      (ga : GroupAction) (name : Text)
      → group_action_name ga ≡ name
      → ((qs : List Text)
          → group_action_paths ga prep.resolved_groups inputs.state.groups qs
            ≡ stripped_paths name inputs.state.groups qs)
      → In ga prep.rgroup_actions
      → StripSaved c inputs.state.groups name
  strip-StripSaved ga name n e i = record {
    fragment_saved =
        subst (λ m. Within c.sp (sudoers_group_path c.sudoers_dir m ∷ []) c.fragments) n
          (group_fragment ga i);
    removed_saved =
        group_paths_saved ga _
          (λ qs q h. rw (e qs) (
            stripped_paths-removed c.sf respects_paths prep.resolved_groups inputs.state.groups name
              qs q h))
          i;
  }

  group_action-GroupSaved :
      (ga : GroupAction)
      → In ga prep.rgroup_actions
      → GroupSaved c inputs.state.groups prep.resolved_groups ga
  unfolding group_action_name group_action_paths
  group_action-GroupSaved (GroupAction.create name gid) i =
      grant-GrantSaved (GroupAction.create name gid) name refl (λ qs. refl) i
  group_action-GroupSaved (GroupAction.adopt name) i =
      grant-GrantSaved (GroupAction.adopt name) name refl (λ qs. refl) i
  group_action-GroupSaved (GroupAction.update name changes) i =
      grant-GrantSaved (GroupAction.update name changes) name refl (λ qs. refl) i
  group_action-GroupSaved (GroupAction.release name) i =
      strip-StripSaved (GroupAction.release name) name refl (λ qs. refl) i
  group_action-GroupSaved (GroupAction.delete name) i =
      strip-StripSaved (GroupAction.delete name) name refl (λ qs. refl) i

  pub mutate-SafePhase : FromTargets prep → SafePhase c (mutate c.provisioner c.backend inputs prep)
  unfolding mutate
  mutate-SafePhase t =
      chain c _ _
        (chain c _ _
          (chain c _ _
            (chain c _ _
              (chain c _ _ (each c _ prep.plan.group_actions (λ ga i. create_group-SafePhase c ga))
                (each c _ prep.plan.actions (λ a i. account-SafePhase c a (account_fragment a i))))
              (each c _ prep.plan.actions (λ a i.
                file_access-SafePhase c inputs.state.accounts a (action-ActionSaved t a i))))
            (each c _ prep.plan.actions (λ a i.
              revoke_deleted-SafePhase c inputs.state.accounts a (action-ActionSaved t a i))))
          (each c _ prep.rgroup_actions (λ ga i.
            group_grant-SafePhase c inputs.state.groups inputs.inspector prep.resolved_groups ga
              (group_action-GroupSaved ga i))))
        (each c _ prep.plan.group_actions (λ ga i. delete_group-SafePhase c ga))
