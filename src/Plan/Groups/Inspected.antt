-- ===== src/Plan/Groups/Inspected.antt =====
-- `diff_groups_via_inspector` of src/plan.rs.
use census.Prelude.Map
use census.Prelude.Map.{Map}
use census.Prelude.{
  ◌∷◌, sym, ap, ◌∙◌, In-append_right, In-append_left, [], inr, refl, In-map, ◌++◌, ◌↔◌, none, inl,
  subst, ok, All-imp, ◌⊎◌, some, List, ◌≡◌, In, ℕ, Option, Text,
}
use census.Plan.Groups.{
  owner_of, collect_owners, collect_live, deletes_of, diff_groups_via_inspector,
}
use census.Plan.Groups.Checks.{
  missing_one, OwnedBy, diff_groups-ok_iff, NoDrift, PinFits, IsSafe, missing,
}
use census.Inspect.{GroupInspector, GroupFacts}
use census.State.{ManagedGroup}
use census.Plan.{GroupAction}
use census.Plan.Groups.Live.{get-collect_live}
use census.Plan.Groups.Owners.{owner_of-collect_owners}
use census.Plan.Groups.Actions.{group_actions_iff, GroupJustified}

PinFits-cong :
    (name : Text) (pin : Option ℕ) (f g : Option GroupFacts) (o q : ℕ → Option Text)
    → f ≡ g
    → ((p : ℕ) → pin ≡ some p → o p ≡ q p)
    → PinFits name pin f o
    → PinFits name pin g q
PinFits-cong name none f g o q e h s = tt
PinFits-cong name (some p) (some f) g o q e h s = subst (λ x. PinFits name (some p) x q) e s
PinFits-cong name (some p) none g o q e h s =
    subst (λ x. PinFits name (some p) x q) e (subst (OwnedBy name) (h p refl) s)

missing-cong :
    (required : Map (Option ℕ)) (f g : Text → Option GroupFacts)
    → ((n : Text) → In n (Map.keys required) → f n ≡ g n)
    → missing required f ≡ missing required g
unfolding missing
missing-cong [] f g h = refl
missing-cong ((name, pin) ∷ required) f g h =
    rw (h name (inl refl)) (
      ap (λ l. missing_one name pin (g name) ++ l) (missing-cong required f g (λ n i. h n (inr i))))

IsSafe-cong :
    (required : Map (Option ℕ)) (managed : Map ManagedGroup) (f g : Text → Option GroupFacts)
    (o q : ℕ → Option Text)
    → ((n : Text) → In n (Map.keys required) ⊎ In n (Map.keys managed) → f n ≡ g n)
    → ((n : Text) (p : ℕ) → In (n, some p) required → o p ≡ q p)
    → IsSafe required managed f o
    → IsSafe required managed g q
IsSafe-cong required managed f g o q hf ho s = record {
  pins =
      All-imp _ _ required
        (λ e i.
          PinFits-cong e.0 e.1 (f e.0) (g e.0) o q
            (hf e.0 (inl (In-map (λ (x : Text × Option ℕ). x.0) e required i)))
            (λ p k. ho e.0 p (subst (λ x. In (e.0, x) required) k i)))
        s.pins;
  drift =
      All-imp _ _ managed
        (λ e i.
          subst (λ x. NoDrift x e.1.gid)
            (hf e.0 (inr (In-map (λ (x : Text × ManagedGroup). x.0) e managed i))))
        s.drift;
}

-- Run against the live system, the diff succeeds exactly when no pin and no recorded GID conflicts
-- with what the system answers, and then creates the required groups that the system lacks and
-- deletes the orphans that Census created.
pub diff_groups_via_inspector-ok_iff :
    (required : Map (Option ℕ)) (managed : Map ManagedGroup) (inspector : GroupInspector)
    (l : List GroupAction)
    → (diff_groups_via_inspector required managed inspector ≡ ok l) ↔ (
        IsSafe required managed inspector.group inspector.group_name_by_gid
        × (l ≡ missing required inspector.group ++ deletes_of required managed))
unfolding diff_groups_via_inspector
diff_groups_via_inspector-ok_iff required managed inspector l =
    let names = Map.keys required ++ Map.keys managed in
    let live = collect_live inspector.group names [] in
    let owners = collect_owners inspector.group_name_by_gid required [] in
    let facts : (n : Text)
        → In n (Map.keys required) ⊎ In n (Map.keys managed)
        → Map.get n live ≡ inspector.group n =
      λ n i. get-collect_live inspector.group names n (elim i [
        | inl a ↦ In-append_left n (Map.keys required) (Map.keys managed) a
        | inr b ↦ In-append_right n (Map.keys required) (Map.keys managed) b
      ]) in
    let owned = owner_of-collect_owners inspector.group_name_by_gid required in
    let absent =
      missing-cong required (λ n. Map.get n live) inspector.group (λ n i. facts n (inl i)) in
    let d = diff_groups-ok_iff required managed live owners l in
    (
      λ h.
          let r = d.0 h in
          (
            IsSafe-cong required managed (λ n. Map.get n live) inspector.group
                (λ g. owner_of g owners) inspector.group_name_by_gid facts owned r.0,
            r.1 ∙ ap (λ m. m ++ deletes_of required managed) absent,
          ),
      λ h. d.1 (
        IsSafe-cong required managed inspector.group (λ n. Map.get n live)
            inspector.group_name_by_gid (λ g. owner_of g owners) (λ n i. sym (facts n i))
            (λ n p i. sym (owned n p i)) h.0,
        h.1 ∙ ap (λ m. m ++ deletes_of required managed) (sym absent),
      ),
    )

-- The actions of a successful group diff are exactly the justified ones: a create for each required
-- group that the system lacks, with its pin, and a delete for each recorded group that Census
-- created and nothing requires. An adopted group is never deleted, and nothing is adopted, updated
-- or released here.
pub via_inspector-actions_iff :
    (required : Map (Option ℕ)) (managed : Map ManagedGroup) (inspector : GroupInspector)
    (l : List GroupAction)
    → diff_groups_via_inspector required managed inspector ≡ ok l
    → (a : GroupAction) → In a l ↔ GroupJustified required managed inspector.group a
via_inspector-actions_iff required managed inspector l h a =
    rw ((diff_groups_via_inspector-ok_iff required managed inspector l).0 h).1
      (group_actions_iff required managed inspector.group a)
