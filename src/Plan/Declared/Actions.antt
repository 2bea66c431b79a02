-- ===== src/Plan/Declared/Actions.antt =====
-- The actions of `diff_resolved_groups` (src/plan.rs) and what justifies them.
use census.Prelude.Map
use census.Plan.{Change, GroupAction}
use census.Prelude.{
  In-append, is_empty, if◌then◌else◌, refl, inr, sym, [], ◌≢◌, subst, inl, false, ◌∷◌, some, none,
  ◌≡◌, In, Text, Option, List,
}
use census.Plan.Declared.{
  declared_actions, diff_group_fields, is_declared_group, introduce, declared_action,
}
use census.Model.{adopted, created, Provenance, ResolvedGroup}
use census.Prelude.Map.{Map}
use census.State.{ManagedGroup}

-- What an update stands for: a declared group whose record differs, with the very differences.
pub record UpdatesGroup (targets : List ResolvedGroup) (managed : Map ManagedGroup) (name : Text)
    (changes : List Change) : Type 0 where
  pub target : ResolvedGroup
  pub listed : In target targets
  pub named : name ≡ target.name
  pub current : ManagedGroup
  pub found : Map.get target.name managed ≡ some current
  pub what : changes ≡ diff_group_fields target current
  pub some_change : changes ≢ []

-- A declared group with a provenance and no record.
pub record Introduces (targets : List ResolvedGroup) (managed : Map ManagedGroup) (p : Provenance)
    (name : Text) : Type 0 where
  pub target : ResolvedGroup
  pub listed : In target targets
  pub named : name ≡ target.name
  pub provenance : target.provenance ≡ p
  pub absent : Map.get target.name managed ≡ none

-- A recorded group with a provenance that is not declared.
pub record Retires (targets : List ResolvedGroup) (managed : Map ManagedGroup) (p : Provenance)
    (name : Text) : Type 0 where
  pub group : ManagedGroup
  pub recorded : In (name, group) managed
  pub provenance : group.provenance ≡ p
  pub undeclared : is_declared_group targets name ≡ false

abbrev pub DeclaredJustified : List ResolvedGroup → Map ManagedGroup → GroupAction → Type 0
DeclaredJustified targets managed (GroupAction.create n gid) =
    (i : Introduces targets managed created n) × (gid ≡ i.target.gid)
DeclaredJustified targets managed (GroupAction.adopt n) = Introduces targets managed adopted n
DeclaredJustified targets managed (GroupAction.update n changes) =
    UpdatesGroup targets managed n changes
DeclaredJustified targets managed (GroupAction.delete n) = Retires targets managed created n
DeclaredJustified targets managed (GroupAction.release n) = Retires targets managed adopted n

-- The two halves of the plan are kept apart by what they stand for.
abbrev IsRetirement : GroupAction → Type 0
IsRetirement (GroupAction.delete n) = Unit
IsRetirement (GroupAction.release n) = Unit
IsRetirement _ = ⊥

introduce-Justified :
    (t : ResolvedGroup) (targets : List ResolvedGroup) (managed : Map ManagedGroup) (p : Provenance)
    → t.provenance ≡ p
    → Map.get t.name managed ≡ none
    → DeclaredJustified (t ∷ targets) managed (introduce t p)
unfolding introduce
introduce-Justified t targets managed created e f =
    (record { target = t; listed = inl refl; named = refl; provenance = e; absent = f }, refl)
introduce-Justified t targets managed adopted e f = record {
  target = t;
  listed = inl refl;
  named = refl;
  provenance = e;
  absent = f;
}

declared_action-Justified :
    (t : ResolvedGroup) (targets : List ResolvedGroup) (managed : Map ManagedGroup)
    (a : GroupAction) (o : Option ManagedGroup)
    → Map.get t.name managed ≡ o
    → In a (declared_action t o)
    → DeclaredJustified (t ∷ targets) managed a
unfolding declared_action
declared_action-Justified t targets managed a none e (inl q) =
    subst (DeclaredJustified (t ∷ targets) managed) (sym q)
      (introduce-Justified t targets managed t.provenance refl e)
declared_action-Justified t targets managed a none e (inr q) = absurd q
declared_action-Justified t targets managed a (some c) e m = go (diff_group_fields t c) refl m
  where
    go :
        (l : List Change)
        → diff_group_fields t c ≡ l
        → In a (if is_empty l then [] else GroupAction.update t.name l ∷ [])
        → DeclaredJustified (t ∷ targets) managed a
    go [] q m = absurd m
    go (x ∷ l) q (inl r) = subst (DeclaredJustified (t ∷ targets) managed) (sym r) (record {
      target = t;
      listed = inl refl;
      named = refl;
      current = c;
      found = e;
      what = sym q;
      some_change = λ z. cc;
    })
    go (x ∷ l) q (inr r) = absurd r

-- What a longer list of declared groups still justifies, retirements aside.
weaken :
    (t : ResolvedGroup) (targets : List ResolvedGroup) (managed : Map ManagedGroup)
    (a : GroupAction)
    → ¬ IsRetirement a
    → DeclaredJustified targets managed a
    → DeclaredJustified (t ∷ targets) managed a
weaken t targets managed (GroupAction.create n g) h (i, e) = (
  record {
    target = i.target;
    listed = inr i.listed;
    named = i.named;
    provenance = i.provenance;
    absent = i.absent;
  },
  e,
)
weaken t targets managed (GroupAction.adopt n) h i = record {
  target = i.target;
  listed = inr i.listed;
  named = i.named;
  provenance = i.provenance;
  absent = i.absent;
}
weaken t targets managed (GroupAction.update n l) h i = record {
  target = i.target;
  listed = inr i.listed;
  named = i.named;
  current = i.current;
  found = i.found;
  what = i.what;
  some_change = i.some_change;
}
weaken t targets managed (GroupAction.delete n) h j = absurd (h tt)
weaken t targets managed (GroupAction.release n) h j = absurd (h tt)

introduce-kept : (t : ResolvedGroup) (p : Provenance) → ¬ IsRetirement (introduce t p)
unfolding introduce
introduce-kept t created h = h
introduce-kept t adopted h = h

declared_action-kept :
    (t : ResolvedGroup) (o : Option ManagedGroup) (a : GroupAction)
    → In a (declared_action t o)
    → ¬ IsRetirement a
unfolding declared_action
declared_action-kept t none a (inl q) h = introduce-kept t t.provenance (subst IsRetirement q h)
declared_action-kept t none a (inr q) h = absurd q
declared_action-kept t (some c) a i h = go (diff_group_fields t c) i
  where
    go : (l : List Change) → In a (if is_empty l then [] else GroupAction.update t.name l ∷ []) → ⊥
    go [] m = m
    go (x ∷ l) (inl q) = subst IsRetirement q h
    go (x ∷ l) (inr q) = q

declared_actions-kept :
    (targets : List ResolvedGroup) (managed : Map ManagedGroup) (a : GroupAction)
    → In a (declared_actions targets managed)
    → ¬ IsRetirement a
unfolding declared_actions
declared_actions-kept [] managed a i = absurd i
declared_actions-kept (t ∷ targets) managed a i =
    elim (In-append a (declared_action t (Map.get t.name managed)) _ i) [
      | inl l ↦ declared_action-kept t (Map.get t.name managed) a l
      | inr r ↦ declared_actions-kept targets managed a r
    ]

pub declared_actions-Justified :
    (targets : List ResolvedGroup) (managed : Map ManagedGroup) (a : GroupAction)
    → In a (declared_actions targets managed)
    → DeclaredJustified targets managed a
unfolding declared_actions
declared_actions-Justified [] managed a i = absurd i
declared_actions-Justified (t ∷ targets) managed a i =
    elim (In-append a (declared_action t (Map.get t.name managed)) _ i) [
      | inl l ↦ declared_action-Justified t targets managed a (Map.get t.name managed) refl l
      | inr r ↦
          weaken t targets managed a (declared_actions-kept targets managed a r)
            (declared_actions-Justified targets managed a r)
    ]
