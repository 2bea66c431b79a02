-- ===== src/Plan/Accounts/Order.antt =====
-- The order of the actions of `diff` (src/plan.rs).
use census.Prelude.{true, ◌++◌, refl, [], inr, inl, false, Bool-cases, ◌∷◌, ◌≡◌, All, List}
use census.Plan.Accounts.{diff, is_declared, target_actions, delete_actions}
use census.Plan.{Action, is_destructive}
use census.Model.{ResolvedAccount}
use census.Prelude.Map.{Map}
use census.State.{ManagedAccount}
use census.Plan.Accounts.Actions.{target_actions-constructive}

-- All deletes come after every create and update.
pub record DeletesLast (l : List Action) : Type 0 where
  pub head : List Action
  pub last : List Action
  pub split : l ≡ head ++ last
  pub kept : All (λ a. is_destructive a ≡ false) head
  pub deleted : All (λ a. is_destructive a ≡ true) last

delete_actions-destructive :
    (targets : List ResolvedAccount) (managed : Map ManagedAccount)
    → All (λ a. is_destructive a ≡ true) (delete_actions targets managed)
unfolding delete_actions is_destructive
delete_actions-destructive targets [] = tt
delete_actions-destructive targets ((n, c) ∷ managed) = elim (Bool-cases (is_declared targets n)) [
  | inl e ↦ rw e (delete_actions-destructive targets managed)
  | inr e ↦ rw e (refl, delete_actions-destructive targets managed)
]

-- The deletes of an account plan come last: the plan is a list of creates and updates followed by a
-- list of deletes.
pub diff-DeletesLast :
    (targets : List ResolvedAccount) (managed : Map ManagedAccount)
    → DeletesLast (diff targets managed).actions
unfolding diff
diff-DeletesLast targets managed = record {
  head = target_actions targets managed;
  last = delete_actions targets managed;
  split = refl;
  kept = target_actions-constructive targets managed;
  deleted = delete_actions-destructive targets managed;
}
