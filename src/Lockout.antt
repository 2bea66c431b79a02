-- ===== src/Lockout.antt =====
-- The anti-lockout gate of src/lockout.rs.
pub mod Gate
use census.Plan.{plan_is_empty, Plan, Action}
use census.Prelude.{
  err, str_eq, ltb, ok, any, ◌+◌, filter, [], ◌&&◌, ◌∷◌, length, is_empty, if◌then◌else◌, ℕ, not,
  false, codes, Result, Text, List, Bool,
}

pub record LockoutContext : Type 0 where
  pub rescue_present : Bool
  pub risk_acknowledged : Bool

abbrev pub non_login_shells : List Text
non_login_shells =
    codes "/usr/sbin/nologin"
    ∷ codes "/sbin/nologin"
    ∷ codes "/bin/false"
    ∷ codes "/usr/bin/false"
    ∷ []

unfoldable pub is_login_capable_shell : Text → Bool
is_login_capable_shell shell =
    not (is_empty shell) && not (any (λ s. str_eq s shell) non_login_shells)

pub data LockoutError : Type 0 where
  would_lock_out : LockoutError

-- The test of the first `filter`.
unfoldable pub keeps_login : Action → Bool
keeps_login (Action.create acct) = is_login_capable_shell acct.shell
keeps_login (Action.update account changes) = is_login_capable_shell account.shell
keeps_login (Action.delete name) = false

unfoldable pub surviving_login_accounts : Plan → List Text → ℕ
surviving_login_accounts plan untouched =
    length (filter keeps_login plan.actions) + length (filter is_login_capable_shell untouched)

unfoldable pub gate : Plan → LockoutContext → List Text → Result LockoutError (Unit {0})
gate plan ctx untouched =
    if plan_is_empty plan
    then ok tt
    else if is_empty plan.actions
    then ok tt
    else if ctx.rescue_present
    then ok tt
    else if ltb 0 (surviving_login_accounts plan untouched)
    then ok tt
    else if ctx.risk_acknowledged
    then ok tt
    else err would_lock_out
