-- ===== src/Plan/Declared/Exact.antt =====
-- `diff_resolved_groups` of src/plan.rs as a whole.
use census.Prelude.Map
use census.Plan.Declared.{
  diff_group_fields, declared_action, retire_actions, declared_actions, retire, introduce,
  diff_resolved_groups,
}
use census.Prelude.{
  In-append_right, ◌∙◌, refl, sym, subst, inr, In-append_left, inl, In-append, ◌++◌, ◌↔◌, In, List,
}
use census.Model.{ResolvedGroup}
use census.Prelude.Map.{Map}
use census.State.{ManagedGroup}
use census.Plan.{GroupAction}
use census.Plan.Declared.Actions.{declared_actions-Justified, DeclaredJustified}
use census.Plan.Declared.Emitted.{
  Retirement-In, updated_step, retire-Justified, introduced-In, retire_actions-from,
  declared_action-In,
}

Justified-In :
    (targets : List ResolvedGroup) (managed : Map ManagedGroup) (a : GroupAction)
    → DeclaredJustified targets managed a
    → In a (declared_actions targets managed ++ retire_actions targets managed)
unfolding introduce retire
Justified-In targets managed (GroupAction.create n g) (i, e) =
    In-append_left _ (declared_actions targets managed) _ (
      declared_action-In targets managed i.target _ i.listed (
        rw (i.named, e)
          (subst
            (λ p.
              In (introduce i.target p) (declared_action i.target (Map.get i.target.name managed)))
            i.provenance (introduced-In i.target managed i.absent))))
Justified-In targets managed (GroupAction.adopt n) i =
    In-append_left _ (declared_actions targets managed) _ (
      declared_action-In targets managed i.target _ i.listed (
        rw i.named (
          subst
            (λ p.
              In (introduce i.target p) (declared_action i.target (Map.get i.target.name managed)))
            i.provenance (introduced-In i.target managed i.absent))))
Justified-In targets managed (GroupAction.update n l) i =
    In-append_left _ (declared_actions targets managed) _ (
      declared_action-In targets managed i.target _ i.listed (
        rw (i.named, i.what, i.found)
          (updated_step i.target i.current (diff_group_fields i.target i.current) refl
            (λ z. i.some_change (i.what ∙ z)))))
Justified-In targets managed (GroupAction.delete n) r =
    In-append_right _ (declared_actions targets managed) _ (
      subst (λ p. In (retire n p) (retire_actions targets managed)) r.provenance
        (Retirement-In targets managed n r.group r.recorded r.undeclared))
Justified-In targets managed (GroupAction.release n) r =
    In-append_right _ (declared_actions targets managed) _ (
      subst (λ p. In (retire n p) (retire_actions targets managed)) r.provenance
        (Retirement-In targets managed n r.group r.recorded r.undeclared))

-- The actions for declared groups are exactly the justified ones: a group with no record is created
-- or adopted by its declared provenance, one whose record differs is updated with the very
-- differences, and a recorded group that is no longer declared is deleted if Census created it and
-- released if Census adopted it.
pub resolved_groups-actions_iff :
    (targets : List ResolvedGroup) (managed : Map ManagedGroup) (a : GroupAction)
    → In a (diff_resolved_groups targets managed) ↔ DeclaredJustified targets managed a
unfolding diff_resolved_groups
resolved_groups-actions_iff targets managed a = (
  λ m. elim (In-append a (declared_actions targets managed) _ m) [
    | inl l ↦ declared_actions-Justified targets managed a l
    | inr r ↦
        let s = retire_actions-from targets managed a r in
        subst (DeclaredJustified targets managed) (sym s.4)
          (retire-Justified targets managed s.0 s.1 s.1.provenance refl s.2 s.3)
  ],
  Justified-In targets managed a,
)
