-- ===== src/Plan/Accounts/Sync.antt =====
-- `diff_fields` and `diff` of src/plan.rs where nothing is to be done.
use census.Prelude.Map
use census.Prelude.{
  none, subst, inr, inl, any_of_In, Bool-cases, some, any-true, All, ◌∷◌, In, ◌≡◌, ◌↔◌, refl, true,
  Option, List, [], ◌++◌, map, Perm, arith, Text, str_eq, str_eq_iff, ◌==◌, eq_ord_iff, nat_ord,
  option_ord, list_ord,
}
use census.Model.{ResolvedAccount}
use census.State.{ManagedAccount}
use census.Plan.Equality.{
  str_set_equal, sudo_set_equal, file_grants_set_equal, str_set_equal_iff, sudo_set_equal_iff,
  file_grants_set_equal_iff, sudo_key, managed_key, resolved_key,
}
use census.Plan.Accounts.{
  target_action, diff, target_actions, is_declared, delete_actions, diff_fields, role_eq,
}
use census.Prelude.Map.{Map}
use census.Plan.{plan_is_empty}

-- The record holds what the target wants, up to the order of its lists.
pub record InSync (t : ResolvedAccount) (c : ManagedAccount) : Type 0 where
  pub uid : t.uid ≡ c.uid
  pub shell : t.shell ≡ c.shell
  pub groups : Perm c.groups t.groups
  pub sudo_role : t.sudo_role ≡ c.sudo_role
  pub sudo_commands : Perm (map sudo_key c.sudo_commands) (map sudo_key t.sudo_commands)
  pub file_grants : Perm (map managed_key c.file_grants) (map resolved_key t.file_grants)

role_eq_iff : (a b : Option Text) → (role_eq a b ≡ true) ↔ (a ≡ b)
unfolding role_eq
role_eq_iff a b = eq_ord_iff a b

-- The six tests of the diff, before they are read as equations.
diff_fields-nil :
    (t : ResolvedAccount) (c : ManagedAccount)
    → (diff_fields t c ≡ []) ↔ (
        ((t.uid == c.uid) ≡ true)
        × (str_eq t.shell c.shell ≡ true)
        × (str_set_equal c.groups t.groups ≡ true)
        × (role_eq t.sudo_role c.sudo_role ≡ true)
        × (sudo_set_equal c.sudo_commands t.sudo_commands ≡ true)
        × (file_grants_set_equal c.file_grants t.file_grants ≡ true))
unfolding diff_fields
diff_fields-nil t c = (λ h. ground arith, λ h. ground arith)

-- An account diff has no line exactly when the record has the UID, the shell and the role of the
-- target and, up to order, its groups, sudo commands and file grants.
pub diff_fields-nil_iff :
    (t : ResolvedAccount) (c : ManagedAccount) → (diff_fields t c ≡ []) ↔ InSync t c
diff_fields-nil_iff t c = (
  λ h.
      let n = (diff_fields-nil t c).0 h in
      record {
        uid = ground (arith, n.0);
        shell = (str_eq_iff _ _).0 n.1;
        groups = (str_set_equal_iff _ _).0 n.2;
        sudo_role = (role_eq_iff _ _).0 n.3;
        sudo_commands = (sudo_set_equal_iff _ _).0 n.4;
        file_grants = (file_grants_set_equal_iff _ _).0 n.5;
      },
  λ s. (diff_fields-nil t c).1 (
    ground (arith, s.uid),
    (str_eq_iff _ _).1 s.shell,
    (str_set_equal_iff _ _).1 s.groups,
    (role_eq_iff _ _).1 s.sudo_role,
    (sudo_set_equal_iff _ _).1 s.sudo_commands,
    (file_grants_set_equal_iff _ _).1 s.file_grants,
  ),
)

-- A target whose record is in sync with it.
pub record Recorded (managed : Map ManagedAccount) (t : ResolvedAccount) : Type 0 where
  pub current : ManagedAccount
  pub found : Map.get t.name managed ≡ some current
  pub in_sync : InSync t current

-- Some target has the name.
pub record Declared (targets : List ResolvedAccount) (name : Text) : Type 0 where
  pub target : ResolvedAccount
  pub listed : In target targets
  pub named : target.name ≡ name

pub is_declared_iff :
    (targets : List ResolvedAccount) (name : Text)
    → (is_declared targets name ≡ true) ↔ Declared targets name
unfolding is_declared
is_declared_iff targets name = (
  λ h.
      let r = any-true (λ t. str_eq t.name name) targets h in
      record { target = r.0; listed = r.1; named = (str_eq_iff r.0.name name).0 r.2 },
  λ d. any_of_In _ d.target targets d.listed ((str_eq_iff d.target.name name).1 d.named),
)

target_action-nil :
    (managed : Map ManagedAccount) (t : ResolvedAccount)
    → (target_action t (Map.get t.name managed) ≡ []) ↔ Recorded managed t
unfolding target_action
target_action-nil managed t = go (Map.get t.name managed) refl
  where
    go :
        (o : Option ManagedAccount)
        → Map.get t.name managed ≡ o
        → (target_action t o ≡ []) ↔ Recorded managed t
    go none e = (λ h. cc, λ r. absurd (cc (e, r.found)))
    go (some c) e = (
      λ h. record { current = c; found = e; in_sync = (diff_fields-nil_iff t c).0 (ground arith) },
      λ r. rw ((diff_fields-nil_iff t c).1 (subst (InSync t) (cc (e, r.found)) r.in_sync)),
    )

append-nil_iff {ℓ} : {A : Type ℓ} (l m : List A) → (l ++ m ≡ []) ↔ ((l ≡ []) × (m ≡ []))
append-nil_iff [] m = (λ h. (refl, h), λ h. h.1)
append-nil_iff (a ∷ l) m = (λ h. cc, λ h. cc)

target_actions-nil :
    (targets : List ResolvedAccount) (managed : Map ManagedAccount)
    → (target_actions targets managed ≡ []) ↔ All (Recorded managed) targets
unfolding target_actions
target_actions-nil [] managed = (λ h. tt, λ h. refl)
target_actions-nil (t ∷ targets) managed = (
  λ h.
      let r = (append-nil_iff _ _).0 h in
      ((target_action-nil managed t).0 r.0, (target_actions-nil targets managed).0 r.1),
  λ a.
      (append-nil_iff _ _).1
        ((target_action-nil managed t).1 a.0, (target_actions-nil targets managed).1 a.1),
)

delete_actions-nil :
    (targets : List ResolvedAccount) (managed : Map ManagedAccount)
    → (delete_actions targets managed ≡ []) ↔ All (λ e. Declared targets e.0) managed
unfolding delete_actions
delete_actions-nil targets [] = (λ h. tt, λ h. refl)
delete_actions-nil targets ((name, current) ∷ managed) = (
  λ h. elim (Bool-cases (is_declared targets name)) [
    | inl e ↦
        ((is_declared_iff targets name).0 e, (delete_actions-nil targets managed).0 (rw e at h))
    | inr e ↦ absurd (ground arith)
  ],
  λ a. rw ((is_declared_iff targets name).1 a.0) ((delete_actions-nil targets managed).1 a.1),
)

-- The diff is empty exactly when every target has a record in sync with it and every recorded name
-- is the name of a target.
pub diff-empty_iff :
    (targets : List ResolvedAccount) (managed : Map ManagedAccount)
    → (plan_is_empty (diff targets managed) ≡ true)
      ↔ (All (Recorded managed) targets × All (λ e. Declared targets e.0) managed)
unfolding plan_is_empty diff
diff-empty_iff targets managed = (
  λ h.
      let r = (append-nil_iff (target_actions targets managed) _).0 (ground arith) in
      ((target_actions-nil targets managed).0 r.0, (delete_actions-nil targets managed).0 r.1),
  λ a. rw ((target_actions-nil targets managed).1 a.0, (delete_actions-nil targets managed).1 a.1),
)
