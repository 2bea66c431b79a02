-- ===== src/Lockout/Gate.antt =====
-- The refusals of `gate` (src/lockout.rs).
use native.Mathlib.Decide.{dec_lt}
use census.Plan.{Action, plan_is_empty, Plan}
use census.Lockout.{
  is_login_capable_shell, would_lock_out, keeps_login, LockoutContext, surviving_login_accounts,
  gate,
}
use census.Prelude.{
  inr, inl, arith, filter, false, ◌⊎◌, length, [], ◌≢◌, true, filter-pos_iff, ◌↔◌, err, In, ◌≡◌,
  ◌<◌, Text, List,
}

-- Some action leaves an account that can log in, or an untouched shell can.
abbrev pub LoginSurvives : Plan → List Text → Type 0
LoginSurvives plan untouched =
    ((a : Action) × In a plan.actions × (keeps_login a ≡ true))
    ⊎ ((s : Text) × In s untouched × (is_login_capable_shell s ≡ true))

pub surviving-pos_iff :
    (plan : Plan) (untouched : List Text)
    → (0 < surviving_login_accounts plan untouched) ↔ LoginSurvives plan untouched
unfolding surviving_login_accounts
surviving-pos_iff plan untouched =
    let f = filter-pos_iff keeps_login plan.actions in
    let g = filter-pos_iff is_login_capable_shell untouched in
    (
      λ h. elim (dec_lt 0 (length (filter keeps_login plan.actions))) [
        | yes p ↦ inl (f.0 p)
        | no n ↦ inr (g.0 (omega arith))
      ],
      elim [
        | inl s ↦ let p = f.1 s in omega (arith, p)
        | inr s ↦ let p = g.1 s in omega (arith, p)
      ],
    )

-- The gate refuses exactly a plan that has account actions, with no rescue channel and no
-- acknowledged risk, after which no account that can log in is left.
pub gate-err_iff :
    (plan : Plan) (ctx : LockoutContext) (untouched : List Text)
    → (gate plan ctx untouched ≡ err would_lock_out) ↔ (
        (plan.actions ≢ [])
        × (ctx.rescue_present ≡ false)
        × (ctx.risk_acknowledged ≡ false)
        × ¬ LoginSurvives plan untouched)
unfolding gate plan_is_empty
gate-err_iff plan ctx untouched =
    let s = surviving-pos_iff plan untouched in
    (
      λ h. (
        λ e. ground (arith, e),
        ground arith,
        ground arith,
        λ l. let p = s.1 l in ground (arith, p),
      ),
      λ h.
          let none_left : ¬ (0 < surviving_login_accounts plan untouched) = λ p. h.3 (s.0 p) in
          ground (arith, none_left),
    )
