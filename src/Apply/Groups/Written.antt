-- ===== src/Apply/Groups/Written.antt =====
-- The loops of `build_managed_groups` (src/apply.rs), name by name.
use census.Prelude.Map
use census.Prelude.Map.{Map}
use census.Model.{ResolvedGroup}
use census.Prelude.{
  sym, subst, str_eq_iff, inr, inl, In, map, Bool-cases, true, refl, [], str_eq, arith, ap, ◌∙◌,
  if◌then◌else◌, false, ◌∷◌, ◌≡◌, ℕ, some, none, Option, List, Text,
}
use census.State.{ManagedGroup}
use census.Apply.Groups.{live_gid, or_else, created_record, add_created, carry_forward, overlay}
use census.Prelude.{Distinct}
use census.Plan.Declared.{is_declared_group}
use census.Inspect.{GroupFacts}

-- A declared group of the name, the last if there are several.
unfoldable pub last_named : Text → List ResolvedGroup → Option ResolvedGroup
last_named n [] = none
last_named n (rg ∷ rgs) = elim (last_named n rgs) [
  | some r ↦ some r
  | none ↦ if str_eq rg.name n then some rg else none
]

module _ (make : ResolvedGroup → ManagedGroup) where
  abbrev overlaid : Option ResolvedGroup → Option ManagedGroup → Option ManagedGroup
  overlaid none o = o
  overlaid (some rg) o = some (make rg)

  pub get-overlay :
      (rgs : List ResolvedGroup) (m : Map ManagedGroup) (n : Text)
      → Map.get n (overlay rgs make m) ≡ overlaid (last_named n rgs) (Map.get n m)
  unfolding overlay last_named
  get-overlay [] m n = refl
  get-overlay (rg ∷ rgs) m n =
      get-overlay rgs (Map.insert rg.name (make rg) m) n
      ∙ (ap (overlaid (last_named n rgs)) (Map.get-insert rg.name n (make rg) m) ∙ ground arith)

module _ (required : Map (Option ℕ)) where
  get-carry_forward_other :
      (prior : Map ManagedGroup) (m : Map ManagedGroup) (n : Text)
      → Map.contains_key n prior ≡ false
      → Map.get n (carry_forward prior required m) ≡ Map.get n m
  unfolding carry_forward Map.contains_key
  get-carry_forward_other [] m n h = refl
  get-carry_forward_other ((k, mg) ∷ prior) m n h =
      get-carry_forward_other prior _ n (ground (arith, h))
      ∙ ground (arith, h, Map.get-insert k n mg m)

  pub get-carry_forward :
      (prior : Map ManagedGroup) (m : Map ManagedGroup) (n : Text) (p : ManagedGroup)
      → Map.IsMap prior
      → Map.get n prior ≡ some p
      → Map.contains_key n required ≡ true
      → Map.get n (carry_forward prior required m) ≡ some p
  unfolding carry_forward Map.get
  get-carry_forward [] m n p w g h = cc
  get-carry_forward ((k, mg) ∷ prior) m n p w g h = elim (Bool-cases (str_eq k n)) [
    | inl e ↦
        let q : k ≡ n = (str_eq_iff k n).0 e in
        get-carry_forward_other prior _ n
          (subst (λ x. Map.contains_key x prior ≡ false) q (Map.above-absent k prior w.0))
        ∙ ground (arith, e, g, h, q, Map.get-insert k n mg m)
    | inr e ↦ get-carry_forward prior _ n p w.1 (rw e at g) h
  ]

  pub get-add_created :
      (new : List (Text × Option ℕ)) (version : ℕ) (group : Text → Option GroupFacts)
      (m : Map ManagedGroup) (n : Text) (p : ManagedGroup)
      → Map.get n m ≡ some p
      → Map.get n (add_created new version group m) ≡ some p
  unfolding add_created
  get-add_created [] version group m n p g = g
  get-add_created ((k, pin) ∷ new) version group m n p g =
      elim (Bool-cases (Map.contains_key k m)) [
        | inl e ↦ get-add_created new version group _ n p (rw e g)
        | inr e ↦ get-add_created new version group _ n p (
            rw e (
              Map.get-insert k n (created_record k (or_else pin (live_gid (group k))) version) m
              ∙ ground (arith, g, str_eq_iff k n, Map.contains_key-none k m e)))
      ]

pub last_named-none :
    (n : Text) (rgs : List ResolvedGroup)
    → is_declared_group rgs n ≡ false
    → last_named n rgs ≡ none
unfolding last_named is_declared_group
last_named-none n [] h = refl
last_named-none n (rg ∷ rgs) h = ground (arith, h, last_named-none n rgs)

undeclared :
    (n : Text) (rgs : List ResolvedGroup)
    → ¬ In n (map (λ (g : ResolvedGroup). g.name) rgs)
    → is_declared_group rgs n ≡ false
unfolding is_declared_group
undeclared n [] h = refl
undeclared n (rg ∷ rgs) h = elim (Bool-cases (str_eq rg.name n)) [
  | inl e ↦ absurd (h (inl (sym ((str_eq_iff rg.name n).0 e))))
  | inr e ↦ rw e (undeclared n rgs (λ i. h (inr i)))
]

pub last_named-some :
    (t : ResolvedGroup) (rgs : List ResolvedGroup)
    → Distinct (map (λ (g : ResolvedGroup). g.name) rgs)
    → In t rgs
    → last_named t.name rgs ≡ some t
unfolding last_named
last_named-some t [] d i = absurd i
last_named-some t (rg ∷ rgs) d (inl q) =
    subst (λ (x : ResolvedGroup). last_named x.name (rg ∷ rgs) ≡ some x) (sym q)
      (rw (
        last_named-none rg.name rgs (undeclared rg.name rgs d.0),
        (str_eq_iff rg.name rg.name).1 refl,
      ))
last_named-some t (rg ∷ rgs) d (inr i) = rw (last_named-some t rgs d.1 i)
