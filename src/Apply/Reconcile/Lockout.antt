-- ===== src/Apply/Reconcile/Lockout.antt =====
-- `lockout::gate` before and after `reconcile_live_sessions` (src/apply.rs, src/lockout.rs).
use census.Plan.{GroupAction, Plan, Action}
use census.Prelude.Map.{Map}
use census.Apply.Reconcile.{reconcile_live_sessions, action_name, untouched_login_shells}
use census.Prelude.{
  err, subst, any_of_In, Result, ok, inr, ap, any-true, ◌∷◌, true, refl, inl, Bool-cases, false, [],
  ◌≡◌, str_eq, any, Text, In, List, Bool,
}
use census.State.{ManagedAccount}
use census.Sessions.{LiveSessions}
use census.Lockout.{would_lock_out, LockoutError, gate, keeps_login, LockoutContext}
use census.Lockout.Gate.{gate-err_iff, LoginSurvives}
use census.Apply.Reconcile.Safety.{reconcile-actions_iff, Stays}

untouched-In :
    (actions : List Action) (managed : Map ManagedAccount) (s : Text)
    → In s (untouched_login_shells actions managed)
    → (name : Text) × (r : ManagedAccount) × In (name, r) managed
      × (any (λ a. str_eq (action_name a) name) actions ≡ false)
      × (s ≡ r.shell)
unfolding untouched_login_shells
untouched-In actions [] s i = absurd i
untouched-In actions ((n, r) ∷ managed) s i =
    elim (Bool-cases (any (λ a. str_eq (action_name a) n) actions)) [
      | inl t ↦ let k = untouched-In actions managed s (rw t at i) in (k.0, k.1, inr k.2, k.3, k.4)
      | inr t ↦
          let j : In s (r.shell ∷ untouched_login_shells actions managed) = rw t at i in
          elim j [
            | inl q ↦ (n, r, inl refl, t, q)
            | inr l ↦ let k = untouched-In actions managed s l in (k.0, k.1, inr k.2, k.3, k.4)
          ]
    ]

In-untouched :
    (actions : List Action) (managed : Map ManagedAccount) (name : Text) (r : ManagedAccount)
    → In (name, r) managed
    → any (λ a. str_eq (action_name a) name) actions ≡ false
    → In r.shell (untouched_login_shells actions managed)
unfolding untouched_login_shells
In-untouched actions [] name r i e = absurd i
In-untouched actions ((n, c) ∷ managed) name r (inl q) e =
    let a : name ≡ n = ap (λ (x : Text × ManagedAccount). x.0) q in
    let b : r ≡ c = ap (λ (x : Text × ManagedAccount). x.1) q in
    let f : any (λ x. str_eq (action_name x) n) actions ≡ false =
      subst (λ k. any (λ x. str_eq (action_name x) k) actions ≡ false) a e in
    rw f (inl (ap (λ (x : ManagedAccount). x.shell) b))
In-untouched actions ((n, c) ∷ managed) name r (inr i) e =
    elim (Bool-cases (any (λ a. str_eq (action_name a) n) actions)) [
      | inl t ↦ rw t (In-untouched actions managed name r i e)
      | inr t ↦ rw t (inr (In-untouched actions managed name r i e))
    ]

any-false_of :
    (p : Action → Bool) (xs ys : List Action)
    → ((a : Action) → In a xs → In a ys)
    → any p ys ≡ false
    → any p xs ≡ false
any-false_of p xs ys f h = elim (Bool-cases (any p xs)) [
  | inl t ↦ let r = any-true p xs t in absurd (cc (h, any_of_In p r.0 ys (f r.0 r.1) r.2))
  | inr t ↦ t
]

module _ (managed : Map ManagedAccount) (live : LiveSessions) (plan : Plan)
    (rest : List GroupAction) where
  -- The plan that is left, with whatever group actions are left.
  abbrev left : Plan
  left = record {
    actions = (reconcile_live_sessions plan.actions managed live).actions;
    group_actions = rest;
  }

  login-Stays : (a : Action) → keeps_login a ≡ true → Stays managed live a
  unfolding keeps_login
  login-Stays (Action.create t) h = tt
  login-Stays (Action.update t l) h = tt
  login-Stays (Action.delete n) h = cc

  survives_left :
      LoginSurvives plan (untouched_login_shells plan.actions managed)
      → LoginSurvives left (untouched_login_shells left.actions managed)
  survives_left = elim [
    | inl s ↦ inl (
      s.0,
      (reconcile-actions_iff managed live plan.actions s.0).1 (s.1, login-Stays s.0 s.2),
      s.2,
    )
    | inr s ↦
        let u = untouched-In plan.actions managed s.0 s.1 in
        let kept : (a : Action) → In a left.actions → In a plan.actions =
          λ a i. ((reconcile-actions_iff managed live plan.actions a).0 i).0 in
        inr (
          s.0,
          rw u.4 (
              In-untouched left.actions managed u.0 u.1 u.2
                (any-false_of _ left.actions plan.actions kept u.3)),
          s.2,
        )
  ]

  left-nil : plan.actions ≡ [] → left.actions ≡ []
  left-nil e = rw e (unfold reconcile_live_sessions in refl)

  -- A plan that the gate lets through is let through after any deletes are deferred: with fewer
  -- deletes no login path is lost.
  pub gate-deferred :
      (ctx : LockoutContext)
      → gate plan ctx (untouched_login_shells plan.actions managed) ≡ ok tt
      → gate left ctx (untouched_login_shells left.actions managed) ≡ ok tt
  gate-deferred ctx h = go (gate left ctx (untouched_login_shells left.actions managed)) refl
    where
      go :
          (r : Result LockoutError (Unit {0}))
          → gate left ctx (untouched_login_shells left.actions managed) ≡ r
          → r ≡ ok tt
      go (ok u) e = refl
      go (err would_lock_out) e =
          let l = (gate-err_iff left ctx (untouched_login_shells left.actions managed)).0 e in
          cc (
            h,
            (gate-err_iff plan ctx (untouched_login_shells plan.actions managed)).1
                (λ z. l.0 (left-nil z), l.1, l.2, λ s. l.3 (survives_left s)),
          )
