-- ===== src/Plan/Accounts/Actions.antt =====
-- The actions of `diff` (src/plan.rs).
use census.Prelude.Map
use census.Prelude.{
  ◌∙◌, In-append_right, In-append_left, ◌++◌, is_empty, refl, if◌then◌else◌, ◌≢◌, sym, ap, [],
  All-In, subst, inr, All-append, some, none, inl, false, In-append, Bool-cases, ◌∷◌, ◌≡◌, ◌↔◌,
  Text, All, Option, List, In,
}
use census.Plan.Accounts.{
  diff, diff_fields, is_declared, target_actions, target_action, delete_actions,
}
use census.Plan.{Change, Action, is_destructive}
use census.Model.{ResolvedAccount}
use census.Prelude.Map.{Map}
use census.State.{ManagedAccount}

-- What an action of a kind stands for.
pub record Updates (targets : List ResolvedAccount) (managed : Map ManagedAccount)
    (t : ResolvedAccount) (changes : List Change) : Type 0 where
  pub listed : In t targets
  pub current : ManagedAccount
  pub found : Map.get t.name managed ≡ some current
  pub what : changes ≡ diff_fields t current
  pub some_change : changes ≢ []

abbrev pub Undeclared : List ResolvedAccount → Map ManagedAccount → Text → Type 0
Undeclared targets managed n = In n (Map.keys managed) × (is_declared targets n ≡ false)

-- What the plan may hold for each kind of action.
abbrev pub Justified : List ResolvedAccount → Map ManagedAccount → Action → Type 0
Justified targets managed (Action.create t) = In t targets × (Map.get t.name managed ≡ none)
Justified targets managed (Action.update t changes) = Updates targets managed t changes
Justified targets managed (Action.delete n) = Undeclared targets managed n

target_action-Justified :
    (t : ResolvedAccount) (targets : List ResolvedAccount) (managed : Map ManagedAccount)
    (a : Action) (o : Option ManagedAccount)
    → Map.get t.name managed ≡ o
    → In a (target_action t o)
    → Justified (t ∷ targets) managed a
unfolding target_action
target_action-Justified t targets managed a none e (inl q) =
    subst (Justified (t ∷ targets) managed) (sym q) (inl refl, e)
target_action-Justified t targets managed a (some c) e m = go (diff_fields t c) refl m
  where
    go :
        (l : List Change)
        → diff_fields t c ≡ l
        → In a (if is_empty l then [] else Action.update t l ∷ [])
        → Justified (t ∷ targets) managed a
    go [] q m = absurd m
    go (x ∷ l) q (inl r) =
        subst (Justified (t ∷ targets) managed) (sym r) (record {
          listed = inl refl;
          current = c;
          found = e;
          what = sym q;
          some_change = λ z. cc;
        })
    go (x ∷ l) q (inr r) = absurd r
target_action-Justified t targets managed a none e (inr q) = absurd q

Justified-weaken :
    (t : ResolvedAccount) (targets : List ResolvedAccount) (managed : Map ManagedAccount)
    (a : Action)
    → is_destructive a ≡ false
    → Justified targets managed a
    → Justified (t ∷ targets) managed a
unfolding is_destructive
Justified-weaken t targets managed (Action.create u) d (i, e) = (inr i, e)
Justified-weaken t targets managed (Action.update u ch) d j = record {
  listed = inr j.listed;
  current = j.current;
  found = j.found;
  what = j.what;
  some_change = j.some_change;
}
Justified-weaken t targets managed (Action.delete n) d j = cc

target_action-constructive :
    (t : ResolvedAccount) (o : Option ManagedAccount)
    → All (λ a. is_destructive a ≡ false) (target_action t o)
unfolding target_action is_destructive
target_action-constructive t none = (refl, tt)
target_action-constructive t (some c) = go (diff_fields t c)
  where
    go :
        (l : List Change)
        → All (λ a. is_destructive a ≡ false) (if is_empty l then [] else Action.update t l ∷ [])
    go [] = tt
    go (x ∷ l) = (refl, tt)

pub target_actions-constructive :
    (targets : List ResolvedAccount) (managed : Map ManagedAccount)
    → All (λ a. is_destructive a ≡ false) (target_actions targets managed)
unfolding target_actions
target_actions-constructive [] managed = tt
target_actions-constructive (t ∷ targets) managed =
    All-append _ (target_action t (Map.get t.name managed)) _
      (target_action-constructive t (Map.get t.name managed))
      (target_actions-constructive targets managed)

target_actions-Justified :
    (targets : List ResolvedAccount) (managed : Map ManagedAccount) (a : Action)
    → In a (target_actions targets managed)
    → Justified targets managed a
unfolding target_actions
target_actions-Justified [] managed a m = absurd m
target_actions-Justified (t ∷ targets) managed a m =
    elim (In-append a (target_action t (Map.get t.name managed)) _ m) [
      | inl l ↦ target_action-Justified t targets managed a (Map.get t.name managed) refl l
      | inr r ↦
          Justified-weaken t targets managed a
            (All-In _ (target_actions targets managed) (target_actions-constructive targets managed)
              a r)
            (target_actions-Justified targets managed a r)
    ]

delete_actions_iff :
    (targets : List ResolvedAccount) (managed : Map ManagedAccount) (n : Text)
    → In (Action.delete n) (delete_actions targets managed) ↔ Undeclared targets managed n
unfolding delete_actions
delete_actions_iff targets [] n = (λ m. absurd m, λ m. absurd m.0)
delete_actions_iff targets ((name, c) ∷ managed) n =
    let ih = delete_actions_iff targets managed n in
    elim (Bool-cases (is_declared targets name)) [
      | inl e ↦ (
        λ m. let r = ih.0 (rw e at m) in (inr r.0, r.1),
        λ u. elim u.0 [
          | inl q ↦ absurd (cc (e, u.1, ap (is_declared targets) q))
          | inr i ↦ rw e (ih.1 (i, u.1))
        ],
      )
      | inr e ↦ (
        λ m.
            let k : In (Action.delete n) (Action.delete name ∷ delete_actions targets managed) =
              rw e at m in
            elim k [
              | inl q ↦ let p : n ≡ name = cc in (inl p, rw p e)
              | inr i ↦ let r = ih.0 i in (inr r.0, r.1)
            ],
        λ u. rw e (elim u.0 [ inl q ↦ inl (ap Action.delete q) | inr i ↦ inr (ih.1 (i, u.1)) ]),
      )
    ]

Delete-In :
    (targets : List ResolvedAccount) (managed : Map ManagedAccount) (a : Action)
    → In a (delete_actions targets managed)
    → (n : Text) × (a ≡ Action.delete n)
unfolding delete_actions
Delete-In targets [] a m = absurd m
Delete-In targets ((name, c) ∷ managed) a m = elim (Bool-cases (is_declared targets name)) [
  | inl e ↦ Delete-In targets managed a (rw e at m)
  | inr e ↦
      let k : In a (Action.delete name ∷ delete_actions targets managed) = rw e at m in
      elim k [ inl q ↦ (name, q) | inr i ↦ Delete-In targets managed a i ]
]

create-In :
    (targets : List ResolvedAccount) (managed : Map ManagedAccount) (t : ResolvedAccount)
    → In t targets
    → Map.get t.name managed ≡ none
    → In (Action.create t) (target_actions targets managed)
unfolding target_actions target_action
create-In [] managed t m e = absurd m
create-In (u ∷ targets) managed t (inl q) e =
    let f : Map.get u.name managed ≡ none =
      subst (λ (x : ResolvedAccount). Map.get x.name managed ≡ none) q e in
    rw (f, target_action) (inl (ap Action.create q))
create-In (u ∷ targets) managed t (inr i) e =
    In-append_right _ (target_action u (Map.get u.name managed)) _ (create-In targets managed t i e)

update_step :
    (u : ResolvedAccount) (c : ManagedAccount) (l : List Change)
    → diff_fields u c ≡ l
    → l ≢ []
    → In (Action.update u l) (target_action u (some c))
unfolding target_action
update_step u c [] e n = absurd (n refl)
update_step u c (x ∷ l) e n = rw e (inl refl)

update-In :
    (targets : List ResolvedAccount) (managed : Map ManagedAccount) (t : ResolvedAccount)
    (c : ManagedAccount)
    → In t targets
    → Map.get t.name managed ≡ some c
    → diff_fields t c ≢ []
    → In (Action.update t (diff_fields t c)) (target_actions targets managed)
unfolding target_actions
update-In [] managed t c m e n = absurd m
update-In (u ∷ targets) managed t c (inl q) e n =
    In-append_left _ (target_action u (Map.get u.name managed)) _ (
      subst
        (λ (x : ResolvedAccount).
          In (Action.update t (diff_fields t c)) (target_action x (Map.get x.name managed)))
        q (rw e (update_step t c (diff_fields t c) refl n)))
update-In (u ∷ targets) managed t c (inr i) e n =
    In-append_right _ (target_action u (Map.get u.name managed)) _
      (update-In targets managed t c i e n)

Justified-In :
    (targets : List ResolvedAccount) (managed : Map ManagedAccount) (a : Action)
    → Justified targets managed a
    → In a (target_actions targets managed ++ delete_actions targets managed)
Justified-In targets managed (Action.create t) j =
    In-append_left _ (target_actions targets managed) _ (create-In targets managed t j.0 j.1)
Justified-In targets managed (Action.update t ch) j =
    In-append_left _ (target_actions targets managed) _ (
      rw j.what
        (update-In targets managed t j.current j.listed j.found (λ z. j.some_change (j.what ∙ z))))
Justified-In targets managed (Action.delete n) j =
    In-append_right _ (target_actions targets managed) _
      ((delete_actions_iff targets managed n).1 j)

-- The plan holds an action exactly when it is justified: a create for a target with no record, an
-- update with the very list of differences for a target whose record differs, a delete for a
-- recorded name that no target has.
pub diff-actions_iff :
    (targets : List ResolvedAccount) (managed : Map ManagedAccount) (a : Action)
    → In a (diff targets managed).actions ↔ Justified targets managed a
unfolding diff
diff-actions_iff targets managed a = (
  λ m. elim (In-append a (target_actions targets managed) _ m) [
    | inl l ↦ target_actions-Justified targets managed a l
    | inr r ↦
        let d = Delete-In targets managed a r in
        subst (Justified targets managed) (sym d.1) (
          (delete_actions_iff targets managed d.0).0
            (subst (λ x. In x (delete_actions targets managed)) d.1 r))
  ],
  Justified-In targets managed a,
)
