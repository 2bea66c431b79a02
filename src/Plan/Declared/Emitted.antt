-- ===== src/Plan/Declared/Emitted.antt =====
-- The actions of `diff_resolved_groups` (src/plan.rs), loop by loop.
use census.Prelude.Map
use census.Plan.{Change, GroupAction}
use census.Prelude.{
  In-append_right, ap, In-append_left, Bool-cases, refl, inr, [], ◌≢◌, subst, inl, false, ◌∷◌, some,
  none, ◌≡◌, In, Text, List,
}
use census.Plan.Declared.{
  retire_actions, retire, declared_actions, diff_group_fields, is_declared_group, introduce,
  declared_action,
}
use census.Model.{adopted, created, Provenance, ResolvedGroup}
use census.Prelude.Map.{Map}
use census.State.{ManagedGroup}
use census.Plan.Declared.Actions.{DeclaredJustified}

-- The action of a declared group stands in the plan.
pub declared_action-In :
    (targets : List ResolvedGroup) (managed : Map ManagedGroup) (t : ResolvedGroup)
    (a : GroupAction)
    → In t targets
    → In a (declared_action t (Map.get t.name managed))
    → In a (declared_actions targets managed)
unfolding declared_actions
declared_action-In [] managed t a i m = absurd i
declared_action-In (u ∷ targets) managed t a (inl q) m =
    In-append_left a (declared_action u (Map.get u.name managed)) _
      (subst (λ (x : ResolvedGroup). In a (declared_action x (Map.get x.name managed))) q m)
declared_action-In (u ∷ targets) managed t a (inr i) m =
    In-append_right a (declared_action u (Map.get u.name managed)) _
      (declared_action-In targets managed t a i m)

pub introduced-In :
    (t : ResolvedGroup) (managed : Map ManagedGroup)
    → Map.get t.name managed ≡ none
    → In (introduce t t.provenance) (declared_action t (Map.get t.name managed))
introduced-In t managed e = rw e (unfold declared_action in inl refl)

pub updated_step :
    (t : ResolvedGroup) (c : ManagedGroup) (l : List Change)
    → diff_group_fields t c ≡ l
    → l ≢ []
    → In (GroupAction.update t.name l) (declared_action t (some c))
unfolding declared_action
updated_step t c [] e n = absurd (n refl)
updated_step t c (x ∷ l) e n = rw e (inl refl)

pub Retirement-In :
    (targets : List ResolvedGroup) (managed : Map ManagedGroup) (n : Text) (mg : ManagedGroup)
    → In (n, mg) managed
    → is_declared_group targets n ≡ false
    → In (retire n mg.provenance) (retire_actions targets managed)
unfolding retire_actions
Retirement-In targets [] n mg i e = absurd i
Retirement-In targets ((k, g) ∷ managed) n mg (inl q) e =
    let a : n ≡ k = ap (λ (x : Text × ManagedGroup). x.0) q in
    let b : mg ≡ g = ap (λ (x : Text × ManagedGroup). x.1) q in
    let f : is_declared_group targets k ≡ false =
      subst (λ x. is_declared_group targets x ≡ false) a e in
    rw f (inl (λ i. retire (a i) (b i).provenance))
Retirement-In targets ((k, g) ∷ managed) n mg (inr i) e =
    elim (Bool-cases (is_declared_group targets k)) [
      | inl t ↦ rw t (Retirement-In targets managed n mg i e)
      | inr t ↦ rw t (inr (Retirement-In targets managed n mg i e))
    ]

pub retire-Justified :
    (targets : List ResolvedGroup) (managed : Map ManagedGroup) (n : Text) (mg : ManagedGroup)
    (p : Provenance)
    → mg.provenance ≡ p
    → In (n, mg) managed
    → is_declared_group targets n ≡ false
    → DeclaredJustified targets managed (retire n p)
unfolding retire
retire-Justified targets managed n mg created e i u = record {
  group = mg;
  recorded = i;
  provenance = e;
  undeclared = u;
}
retire-Justified targets managed n mg adopted e i u = record {
  group = mg;
  recorded = i;
  provenance = e;
  undeclared = u;
}

pub retire_actions-from :
    (targets : List ResolvedGroup) (managed : Map ManagedGroup) (a : GroupAction)
    → In a (retire_actions targets managed)
    → (n : Text) × (mg : ManagedGroup) × In (n, mg) managed
      × (is_declared_group targets n ≡ false)
      × (a ≡ retire n mg.provenance)
unfolding retire_actions
retire_actions-from targets [] a i = absurd i
retire_actions-from targets ((k, g) ∷ managed) a i =
    elim (Bool-cases (is_declared_group targets k)) [
      | inl t ↦
          let s = retire_actions-from targets managed a (rw t at i) in (s.0, s.1, inr s.2, s.3, s.4)
      | inr t ↦
          let j : In a (retire k g.provenance ∷ retire_actions targets managed) = rw t at i in
          elim j [
            | inl q ↦ (k, g, inl refl, t, q)
            | inr l ↦
                let s = retire_actions-from targets managed a l in (s.0, s.1, inr s.2, s.3, s.4)
          ]
    ]
