-- ===== src/Apply/Accounts/Settled.antt =====
-- `build_managed_set` of src/apply.rs against `diff` of src/plan.rs, one run after another.
use census.Prelude.Map
use mathlib.Core.List.Perm
use census.Prelude.{
  In-append, map-In, inl, ◌&&◌, is_empty, inr, ◌∙◌, true, ◌⊎◌, In-append_left, refl, [], All-of_In,
  ◌++◌, sym, ap, In-map, ◌∷◌, Perm, In, All, subst, ◌≡◌, map, Text, ℕ, option_ord, nat_ord,
  list_ord, List,
}
use census.State.{ManagedAccount, from_resolved}
use census.Apply.Accounts.{retained, read_back, build_managed_set, by_name, record_for}
use census.Model.{ResolvedAccount}
use census.Catalog.Grants.{ResolvedFileGrant}
use census.Prelude.Map.{Map}
use census.Apply.Reconcile.{DeferredDelete}
use census.Plan.Accounts.Sync.{is_declared_iff, diff_fields-nil_iff, Declared, Recorded, InSync}
use census.Plan.Equality.{resolved_key, sudo_key, managed_key}
use census.Prelude.Map.Collect.{In-collect, get-collect}
use census.Prelude.{Distinct}
use census.Plan.{plan_is_empty, Action}
use census.Plan.Accounts.{diff_fields, diff}
use census.Plan.Accounts.Actions.{diff-actions_iff, Justified}

pub grant_keys :
    (gs : List ResolvedFileGrant) → map managed_key (map from_resolved gs) ≡ map resolved_key gs
unfolding from_resolved
grant_keys [] = refl
grant_keys (g ∷ gs) = ap (λ l. resolved_key g ∷ l) (grant_keys gs)

record_for-InSync :
    (version : ℕ) (current : Map ManagedAccount) (t : ResolvedAccount)
    → InSync t (record_for version current t)
unfolding record_for
record_for-InSync version current t = record {
  uid = refl;
  shell = refl;
  groups = Perm.refl t.groups;
  sudo_role = refl;
  sudo_commands = Perm.refl (map sudo_key t.sudo_commands);
  file_grants =
      subst (λ l. Perm l (map resolved_key t.file_grants)) (sym (grant_keys t.file_grants))
        (Perm.refl _);
}

-- The names that the written registry holds, in order.
abbrev pub written_names : List ManagedAccount → List Text
written_names l = Map.keys (by_name l)

module _ (targets : List ResolvedAccount) (version : ℕ) (current : Map ManagedAccount)
    (deferred : List DeferredDelete)
    (distinct : Distinct (written_names (build_managed_set targets version current deferred))) where
  -- The registry that the next run reads.
  abbrev next_registry : Map ManagedAccount
  next_registry = read_back (build_managed_set targets version current deferred)

  target-written :
      (t : ResolvedAccount)
      → In t targets
      → In
          (t.name, record_for version current t)
          (by_name (build_managed_set targets version current deferred))
  unfolding build_managed_set record_for
  target-written t i =
      In-map (λ (a : ManagedAccount). (a.name, a)) (record_for version current t)
        (map (record_for version current) targets ++ retained deferred current)
        (In-append_left _ (map (record_for version current) targets) (retained deferred current)
          (In-map (record_for version current) t targets i))

  pub target-Recorded : (t : ResolvedAccount) → In t targets → Recorded next_registry t
  unfolding read_back
  target-Recorded t i = record {
    current = record_for version current t;
    found =
        get-collect t.name (record_for version current t)
          (by_name (build_managed_set targets version current deferred)) [] distinct
          (target-written t i);
    in_sync = record_for-InSync version current t;
  }

  -- Every target has a record in sync with it in the registry that the apply writes.
  pub targets-Recorded : All (Recorded next_registry) targets
  targets-Recorded = All-of_In (Recorded next_registry) targets target-Recorded

  entry-from :
      (n : Text) (r : ManagedAccount)
      → In (n, r) next_registry
      → (n ≡ r.name) × (Declared targets n ⊎ In r (retained deferred current))
  unfolding read_back build_managed_set record_for
  entry-from n r i =
      elim (In-collect (n, r) (by_name (build_managed_set targets version current deferred)) [] i) [
        | inr b ↦ absurd b
        | inl b ↦
            let m =
              map-In (λ (a : ManagedAccount). (a.name, a)) (n, r)
                (map (record_for version current) targets ++ retained deferred current) b in
            let e : n ≡ m.0.name = ap (λ (x : Text × ManagedAccount). x.0) m.2 in
            let f : r ≡ m.0 = ap (λ (x : Text × ManagedAccount). x.1) m.2 in
            (
              e ∙ ap (λ (x : ManagedAccount). x.name) (sym f),
              elim (In-append m.0 (map (record_for version current) targets)
                  (retained deferred current) m.1) [
                    | inl l ↦
                        let t = map-In (record_for version current) m.0 targets l in
                        inl (record {
                          target = t.0;
                          listed = t.1;
                          named = ap (λ (x : ManagedAccount). x.name) (sym t.2) ∙ sym e;
                        })
                    | inr k ↦ inr (subst (λ x. In x (retained deferred current)) (sym f) k)
                  ],
            )
      ]

  -- The next run plans nothing but deletes of accounts that were kept for a live session.
  pub next_plan-deletes :
      (a : Action)
      → In a (diff targets next_registry).actions
      → (r : ManagedAccount) × In r (retained deferred current) × (a ≡ Action.delete r.name)
  next_plan-deletes a i = go a ((diff-actions_iff targets next_registry a).0 i)
    where
      recorded : (t : ResolvedAccount) → In t targets → Recorded next_registry t
      recorded t i = target-Recorded t i

      go :
          (b : Action)
          → Justified targets next_registry b
          → (r : ManagedAccount) × In r (retained deferred current) × (b ≡ Action.delete r.name)
      go (Action.create t) j = absurd (cc (j.1, (recorded t j.0).found))
      go (Action.update t l) j =
          let r = recorded t j.listed in
          let same : j.current ≡ r.current = cc (j.found, r.found) in
          absurd (
            j.some_change
              (j.what ∙ (ap (diff_fields t) same ∙ (diff_fields-nil_iff t r.current).1 r.in_sync)))
      go (Action.delete n) j =
          let e = map-In (λ (x : Text × ManagedAccount). x.0) n next_registry j.0 in
          let f = entry-from e.0.0 e.0.1 e.1 in
          elim f.1 [
            | inl d ↦
                absurd
                  (cc (j.1, (is_declared_iff targets n).1 (subst (Declared targets) (sym e.2) d)))
            | inr k ↦ (e.0.1, k, ap Action.delete (e.2 ∙ f.0))
          ]

-- An apply settles the accounts: where no delete was put off, the next run on the same targets finds
-- an empty account plan in the registry that this run writes.
pub next_plan-empty :
    (targets : List ResolvedAccount) (version : ℕ) (current : Map ManagedAccount)
    → Distinct (written_names (build_managed_set targets version current []))
    → plan_is_empty (diff targets (read_back (build_managed_set targets version current []))) ≡ true
unfolding diff plan_is_empty retained
next_plan-empty targets version current d = go (diff targets reg).actions refl
  where
    reg : Map ManagedAccount
    reg = read_back (build_managed_set targets version current [])

    go :
        (l : List Action)
        → (diff targets reg).actions ≡ l
        → (is_empty (diff targets reg).actions && true) ≡ true
    go [] e = rw e
    go (a ∷ l) e = absurd (
        (next_plan-deletes targets version current [] d a
          (subst (λ x. In a x) (sym e) (inl refl))).1)
