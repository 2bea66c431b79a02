-- ===== src/Apply/Reconcile/Deferred.antt =====
-- The deferred deletes of `reconcile_live_sessions` (src/apply.rs).
use census.Prelude.Map
use census.Prelude.Map.{Map}
use census.State.{ManagedAccount}
use census.Sessions.{matches, LiveSessions}
use census.Prelude.{
  sym, refl, ◌∷◌, none, [], ◌∙◌, inr, ◌⊎◌, true, subst, ap, Bool-cases, ◌↔◌, inl, some, In, ◌≡◌, ℕ,
  Option, Text, List,
}
use census.Apply.Reconcile.{reconcile_delete, Reconciled, DeferredDelete, reconcile_live_sessions}
use census.Plan.{Action}

-- The recorded account is in a live session.
pub record IsLive (managed : Map ManagedAccount) (live : LiveSessions) (name : Text) (uid : ℕ)
    : Type 0 where
  pub record_of : ManagedAccount
  pub found : Map.get name managed ≡ some record_of
  pub uid_of : record_of.uid ≡ uid
  pub matched : matches live name uid ≡ true

module _ (managed : Map ManagedAccount) (live : LiveSessions) where
  delete-deferred :
      (name : Text) (o : Option ManagedAccount) (rest : Reconciled) (d : DeferredDelete)
      → Map.get name managed ≡ o
      → In d (reconcile_delete name o live rest).deferred
      → ((d.name ≡ name) × IsLive managed live d.name d.uid) ⊎ In d rest.deferred
  delete-deferred name none rest d e i = inr i
  delete-deferred name (some r) rest d e i = elim (Bool-cases (matches live name r.uid)) [
    | inr t ↦ inr (rw t at i)
    | inl t ↦
        let j : In d ((record { name = name; uid = r.uid }) ∷ rest.deferred) = rw t at i in
        elim j [
          | inr k ↦ inr k
          | inl q ↦
              let n : d.name ≡ name = ap (λ (x : DeferredDelete). x.name) q in
              let u : d.uid ≡ r.uid = ap (λ (x : DeferredDelete). x.uid) q in
              inl
                (n, record { record_of = r; found = rw n e; uid_of = sym u; matched = rw (n, u) t })
        ]
  ]

  deferred→live :
      (actions : List Action) (d : DeferredDelete)
      → In d (reconcile_live_sessions actions managed live).deferred
      → In (Action.delete d.name) actions × IsLive managed live d.name d.uid
  unfolding reconcile_live_sessions
  deferred→live [] d i = absurd i
  deferred→live (Action.delete n ∷ actions) d i =
      elim (delete-deferred n (Map.get n managed) (reconcile_live_sessions actions managed live) d
        refl i) [
          | inl s ↦ (inl (ap Action.delete s.0), s.1)
          | inr k ↦ let r = deferred→live actions d k in (inr r.0, r.1)
        ]
  deferred→live (Action.create t ∷ actions) d i =
      let r = deferred→live actions d i in (inr r.0, r.1)
  deferred→live (Action.update t l ∷ actions) d i =
      let r = deferred→live actions d i in (inr r.0, r.1)

  defer_passes :
      (name : Text) (o : Option ManagedAccount) (rest : Reconciled) (d : DeferredDelete)
      → In d rest.deferred
      → In d (reconcile_delete name o live rest).deferred
  defer_passes name none rest d i = i
  defer_passes name (some r) rest d i = elim (Bool-cases (matches live name r.uid)) [
    | inl t ↦ rw t (inr i)
    | inr t ↦ rw t i
  ]

  defer_live :
      (name : Text) (o : Option ManagedAccount) (rest : Reconciled) (uid : ℕ)
      → Map.get name managed ≡ o
      → IsLive managed live name uid
      → In (record { name = name; uid = uid }) (reconcile_delete name o live rest).deferred
  defer_live name none rest uid e l = cc (e, l.found)
  defer_live name (some r) rest uid e l =
      let p : r ≡ l.record_of = cc (e, l.found) in
      let q : r.uid ≡ uid = ap (λ (x : ManagedAccount). x.uid) p ∙ l.uid_of in
      rw q (rw l.matched (inl refl))

  live→deferred :
      (actions : List Action) (d : DeferredDelete)
      → In (Action.delete d.name) actions
      → IsLive managed live d.name d.uid
      → In d (reconcile_live_sessions actions managed live).deferred
  unfolding reconcile_live_sessions
  live→deferred [] d i l = absurd i
  live→deferred (Action.delete n ∷ actions) d (inl q) l =
      let p : d.name ≡ n = cc in
      subst
        (λ x.
          In d
            (reconcile_delete x (Map.get x managed) live
              (reconcile_live_sessions actions managed live)).deferred)
        p
        (defer_live d.name (Map.get d.name managed) (reconcile_live_sessions actions managed live)
          d.uid refl l)
  live→deferred (Action.delete n ∷ actions) d (inr i) l =
      defer_passes n (Map.get n managed) (reconcile_live_sessions actions managed live) d
        (live→deferred actions d i l)
  live→deferred (Action.create t ∷ actions) d (inl q) l = cc
  live→deferred (Action.create t ∷ actions) d (inr i) l = live→deferred actions d i l
  live→deferred (Action.update t c ∷ actions) d (inl q) l = cc
  live→deferred (Action.update t c ∷ actions) d (inr i) l = live→deferred actions d i l

  -- The deferred deletes are exactly the planned deletes of recorded accounts whose name or recorded
  -- UID has a live session, each with its recorded UID.
  pub reconcile-deferred_iff :
      (actions : List Action) (d : DeferredDelete)
      → In d (reconcile_live_sessions actions managed live).deferred
        ↔ (In (Action.delete d.name) actions × IsLive managed live d.name d.uid)
  reconcile-deferred_iff actions d = (deferred→live actions d, λ h. live→deferred actions d h.0 h.1)
