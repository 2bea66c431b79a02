-- ===== src/Apply/Reconcile/Safety.antt =====
-- The actions that `reconcile_live_sessions` keeps (src/apply.rs).
use census.Prelude.Map
use census.Prelude.Map.{Map}
use census.State.{ManagedAccount}
use census.Sessions.{matches, LiveSessions}
use census.Plan.{Action}
use census.Prelude.{
  ◌∷◌, refl, [], Bool-cases, ◌⊎◌, sym, none, inr, false, subst, ◌↔◌, some, inl, ◌≡◌, Option, In,
  Text, List,
}
use census.Apply.Reconcile.{reconcile_delete, Reconciled, reconcile_live_sessions}

module _ (managed : Map ManagedAccount) (live : LiveSessions) where
  -- What stays: everything but the deletes of live accounts.
  abbrev pub Stays : Action → Type 0
  Stays (Action.delete n) =
      (r : ManagedAccount) → Map.get n managed ≡ some r → matches live n r.uid ≡ false
  Stays _ = Unit

  delete-kept :
      (name : Text) (o : Option ManagedAccount) (rest : Reconciled) (a : Action)
      → Map.get name managed ≡ o
      → In a (reconcile_delete name o live rest).actions
      → ((a ≡ Action.delete name) × Stays (Action.delete name)) ⊎ In a rest.actions
  delete-kept name none rest a e (inl q) = inl (q, λ r f. cc)
  delete-kept name none rest a e (inr i) = inr i
  delete-kept name (some r) rest a e i = elim (Bool-cases (matches live name r.uid)) [
    | inl t ↦ inr (rw t at i)
    | inr t ↦
        let j : In a (Action.delete name ∷ rest.actions) = rw t at i in
        elim j [
          | inl q ↦ inl (
            q,
            λ s f.
                subst (λ (x : ManagedAccount). matches live name x.uid ≡ false)
                  (let p : r ≡ s = cc (e, f) in p) t,
          )
          | inr k ↦ inr k
        ]
  ]

  kept→In :
      (actions : List Action) (a : Action)
      → In a (reconcile_live_sessions actions managed live).actions
      → In a actions × Stays a
  unfolding reconcile_live_sessions
  kept→In [] a i = absurd i
  kept→In (Action.delete n ∷ actions) a i =
      elim (delete-kept n (Map.get n managed) (reconcile_live_sessions actions managed live) a refl
        i) [
          | inl s ↦ (inl s.0, subst Stays (sym s.0) s.1)
          | inr k ↦ let r = kept→In actions a k in (inr r.0, r.1)
        ]
  kept→In (Action.create t ∷ actions) a (inl q) = (inl q, subst Stays (sym q) tt)
  kept→In (Action.create t ∷ actions) a (inr i) = let r = kept→In actions a i in (inr r.0, r.1)
  kept→In (Action.update t l ∷ actions) a (inl q) = (inl q, subst Stays (sym q) tt)
  kept→In (Action.update t l ∷ actions) a (inr i) = let r = kept→In actions a i in (inr r.0, r.1)

  delete-Stays :
      (name : Text) (o : Option ManagedAccount) (rest : Reconciled)
      → Map.get name managed ≡ o
      → Stays (Action.delete name)
      → In (Action.delete name) (reconcile_delete name o live rest).actions
  delete-Stays name none rest e s = inl refl
  delete-Stays name (some r) rest e s = rw (s r e) (inl refl)

  delete-passes :
      (name : Text) (o : Option ManagedAccount) (rest : Reconciled) (a : Action)
      → In a rest.actions
      → In a (reconcile_delete name o live rest).actions
  delete-passes name none rest a i = inr i
  delete-passes name (some r) rest a i = elim (Bool-cases (matches live name r.uid)) [
    | inl t ↦ rw t i
    | inr t ↦ rw t (inr i)
  ]

  In→kept :
      (actions : List Action) (a : Action)
      → In a actions
      → Stays a
      → In a (reconcile_live_sessions actions managed live).actions
  unfolding reconcile_live_sessions
  In→kept [] a i s = absurd i
  In→kept (Action.delete n ∷ actions) a (inl q) s = rw q (
      delete-Stays n (Map.get n managed) (reconcile_live_sessions actions managed live) refl
        (subst Stays q s))
  In→kept (Action.delete n ∷ actions) a (inr i) s =
      delete-passes n (Map.get n managed) (reconcile_live_sessions actions managed live) a
        (In→kept actions a i s)
  In→kept (Action.create t ∷ actions) a (inl q) s = inl q
  In→kept (Action.create t ∷ actions) a (inr i) s = inr (In→kept actions a i s)
  In→kept (Action.update t l ∷ actions) a (inl q) s = inl q
  In→kept (Action.update t l ∷ actions) a (inr i) s = inr (In→kept actions a i s)

  -- The actions that are still executed are exactly those of the plan, less the deletes of recorded
  -- accounts whose name or UID has a live session.
  pub reconcile-actions_iff :
      (actions : List Action) (a : Action)
      → In a (reconcile_live_sessions actions managed live).actions ↔ (In a actions × Stays a)
  reconcile-actions_iff actions a = (kept→In actions a, λ h. In→kept actions a h.0 h.1)
