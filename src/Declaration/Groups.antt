-- ===== src/Declaration/Groups.antt =====
-- The loops of `Declaration::validate` over the groups and the bindings (src/declaration.rs).
use mathlib.Core.List.{append-nil, append_assoc}
use census.Prelude.{
  >>-eq_ok_iff, ◌∙◌, ok-injective, ap, sym, refl, ◌++◌, str_eq_iff, map, [], str_eq, inr,
  guard-eq_ok_iff, arith, Fresh, ◌∷◌, inl, All, ◌↔◌, Bool-cases, ◌&&◌, true, ok, not, false, ◌≡◌,
  In, Bool, Text, List,
}
use census.Declaration.{
  seen_in, is_some, is_valid_user_name, is_valid_group_name, seen_pair_in, is_valid_role_id,
  GroupSpec, check_members, check_groups, check_bindings, RoleGroup,
}
use census.Declaration.Accounts.{not_seen, seen_in_iff}

-- A member is a user name, and in an adopted group a user that Census manages.
abbrev pub MemberFits : List Text → Bool → Text → Type 0
MemberFits managed adopt m = (is_valid_user_name m ≡ true) × ((adopt ≡ true) → In m managed)

pub record GroupFits (managed : List Text) (g : GroupSpec) : Type 0 where
  pub name : is_valid_group_name g.name ≡ true
  pub pin : ¬ ((g.adopt ≡ true) × (is_some g.gid ≡ true))
  pub members : All (MemberFits managed g.adopt) g.members

pub record BindingFits (groups : List Text) (b : RoleGroup) : Type 0 where
  pub role : is_valid_role_id b.role ≡ true
  pub group : In b.group groups

abbrev pub pair_of : RoleGroup → Text × Text
pair_of b = (b.role, b.group)

member-Fits_iff :
    (managed : List Text) (adopt : Bool) (m : Text)
    → ((not (is_valid_user_name m) ≡ false) × ((adopt && not (seen_in managed m)) ≡ false))
      ↔ MemberFits managed adopt m
member-Fits_iff managed adopt m = (
  λ h. (ground arith, λ a. (seen_in_iff managed m).0 (ground (arith, a, h.1))),
  λ f. (ground (arith, f.0), managed_or f.1),
)
  where
    managed_or : ((adopt ≡ true) → In m managed) → (adopt && not (seen_in managed m)) ≡ false
    managed_or f = elim (Bool-cases adopt) [
      | inl e ↦ ground (arith, e, (seen_in_iff managed m).1 (f e))
      | inr e ↦ ground (arith, e)
    ]

check_members_iff :
    (managed : List Text) (group : Text) (adopt : Bool) (members : List Text)
    → (check_members managed group adopt members ≡ ok tt) ↔ All (MemberFits managed adopt) members
unfolding check_members
check_members_iff managed group adopt [] = (λ h. tt, λ h. refl)
check_members_iff managed group adopt (m ∷ members) = (
  λ h.
      let a = (guard-eq_ok_iff (not (is_valid_user_name m)) _ _ tt).0 h in
      let b = (guard-eq_ok_iff (adopt && not (seen_in managed m)) _ _ tt).0 a.1 in
      (
        (member-Fits_iff managed adopt m).0 (a.0, b.0),
        (check_members_iff managed group adopt members).0 b.1,
      ),
  λ h.
      let f = (member-Fits_iff managed adopt m).1 h.0 in
      (guard-eq_ok_iff (not (is_valid_user_name m)) _ _ tt).1 (
        f.0,
        (guard-eq_ok_iff (adopt && not (seen_in managed m)) _ _ tt).1
            (f.1, (check_members_iff managed group adopt members).1 h.1),
      ),
)

-- The loop accepts groups that fit and were not seen, and returns all the names.
pub check_groups_iff :
    (managed seen : List Text) (groups : List GroupSpec) (out : List Text)
    → (check_groups managed seen groups ≡ ok out) ↔ (
        All (GroupFits managed) groups
        × Fresh seen (map (λ (g : GroupSpec). g.name) groups)
        × (out ≡ seen ++ map (λ (g : GroupSpec). g.name) groups))
unfolding check_groups
check_groups_iff managed seen [] out = (
  λ h. (tt, tt, sym (ok-injective h) ∙ sym (append-nil seen)),
  λ h. ap ok (sym (append-nil seen) ∙ sym h.2),
)
check_groups_iff managed seen (g ∷ groups) out =
    let names = map (λ (g : GroupSpec). g.name) groups in
    let e : (seen ++ (g.name ∷ [])) ++ names ≡ seen ++ (g.name ∷ names) =
      append_assoc seen (g.name ∷ []) names in
    let rest = check_groups_iff managed (seen ++ (g.name ∷ [])) groups out in
    (
      λ h.
          let a = (guard-eq_ok_iff (not (is_valid_group_name g.name)) _ _ out).0 h in
          let b = (guard-eq_ok_iff (seen_in seen g.name) _ _ out).0 a.1 in
          let c = (guard-eq_ok_iff (g.adopt && is_some g.gid) _ _ out).0 b.1 in
          let d = (>>-eq_ok_iff (check_members managed g.name g.adopt g.members) _ out).0 c.1 in
          let r = rest.0 d.1 in
          (
            (
              record {
                name = ground arith;
                pin = λ p. ground (arith, p.0, p.1, c.0);
                members = (check_members_iff managed g.name g.adopt g.members).0 d.0;
              },
              r.0,
            ),
            (λ m. cc (b.0, (seen_in_iff seen g.name).1 m), r.1),
            r.2 ∙ e,
          ),
      λ h. (guard-eq_ok_iff (not (is_valid_group_name g.name)) _ _ out).1 (
        ground (arith, h.0.0.name),
        (guard-eq_ok_iff (seen_in seen g.name) _ _ out).1 (
          not_seen seen g.name h.1.0,
          (guard-eq_ok_iff (g.adopt && is_some g.gid) _ _ out).1 (
            no_pin g.adopt (is_some g.gid) h.0.0.pin,
            (>>-eq_ok_iff (check_members managed g.name g.adopt g.members) _ out).1 (
              (check_members_iff managed g.name g.adopt g.members).1 h.0.0.members,
              rest.1 (h.0.1, h.1.1, h.2 ∙ sym e),
            ),
          ),
        ),
      ),
    )
  where
    no_pin : (a b : Bool) → ¬ ((a ≡ true) × (b ≡ true)) → (a && b) ≡ false
    no_pin true true n = absurd (n (refl, refl))
    no_pin true false n = refl
    no_pin false b n = refl

seen_pair_in_iff :
    (seen : List (Text × Text)) (p : Text × Text) → (seen_pair_in seen p ≡ true) ↔ In p seen
seen_pair_in_iff [] p = (λ h. cc, λ h. absurd h)
seen_pair_in_iff ((r, g) ∷ seen) (s, k) = (
  λ h. elim (Bool-cases (str_eq r s && str_eq g k)) [
    | inl e ↦ inl (ground (arith, e, str_eq_iff r s, str_eq_iff g k))
    | inr e ↦ inr ((seen_pair_in_iff seen (s, k)).0 (rw e at h))
  ],
  elim [
    | inl e ↦ rw (
      (str_eq_iff r s).1 (sym (ap (λ (x : Text × Text). x.0) e)),
      (str_eq_iff g k).1 (sym (ap (λ (x : Text × Text). x.1) e)),
    )
    | inr m ↦ ground (arith, (seen_pair_in_iff seen (s, k)).1 m)
  ],
)

not_seen_pair :
    (seen : List (Text × Text)) (p : Text × Text) → ¬ In p seen → seen_pair_in seen p ≡ false
not_seen_pair seen p n = elim (Bool-cases (seen_pair_in seen p)) [
  | inl e ↦ absurd (n ((seen_pair_in_iff seen p).0 e))
  | inr e ↦ e
]

-- The loop accepts bindings that fit and were not seen.
pub check_bindings_iff :
    (groups : List Text) (seen : List (Text × Text)) (bindings : List RoleGroup)
    → (check_bindings groups seen bindings ≡ ok tt)
      ↔ (All (BindingFits groups) bindings × Fresh seen (map pair_of bindings))
unfolding check_bindings
check_bindings_iff groups seen [] = (λ h. (tt, tt), λ h. refl)
check_bindings_iff groups seen (b ∷ bindings) =
    let rest = check_bindings_iff groups (seen ++ (pair_of b ∷ [])) bindings in
    (
      λ h.
          let x = (guard-eq_ok_iff (not (is_valid_role_id b.role)) _ _ tt).0 h in
          let y = (guard-eq_ok_iff (not (seen_in groups b.group)) _ _ tt).0 x.1 in
          let z = (guard-eq_ok_iff (seen_pair_in seen (pair_of b)) _ _ tt).0 y.1 in
          let r = rest.0 z.1 in
          (
            (
              record { role = ground arith; group = (seen_in_iff groups b.group).0 (ground arith) },
              r.0,
            ),
            (λ m. cc (z.0, (seen_pair_in_iff seen (pair_of b)).1 m), r.1),
          ),
      λ h. (guard-eq_ok_iff (not (is_valid_role_id b.role)) _ _ tt).1 (
        ground (arith, h.0.0.role),
        (guard-eq_ok_iff (not (seen_in groups b.group)) _ _ tt).1 (
          ground (arith, (seen_in_iff groups b.group).1 h.0.0.group),
          (guard-eq_ok_iff (seen_pair_in seen (pair_of b)) _ _ tt).1
              (not_seen_pair seen (pair_of b) h.1.0, rest.1 (h.0.1, h.1.1)),
        ),
      ),
    )
