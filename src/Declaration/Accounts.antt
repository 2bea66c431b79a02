-- ===== src/Declaration/Accounts.antt =====
-- The loop of `Declaration::validate` over the role accounts (src/declaration.rs).
use mathlib.Core.List.{append-nil}
use census.Prelude.{
  subst, Fresh-append_iff, ◌∙◌, >>=-eq_ok, not, guard-eq_ok_iff, err, ◌||◌, ltb, if◌then◌else◌,
  Result, Fresh, All, ok, ap, refl, str_eq_iff, inr, sym, arith, str_eq, inl, map, Bool-cases, ◌≤◌,
  In, ◌↔◌, true, false, ◌≡◌, none, ◌==◌, ◌++◌, ◌∷◌, some, find, [], Text, Bool, ℕ, Option, List,
}
use census.Declaration.{
  uid_collision, uid_out_of_range, DeclarationError, check_identity, check_created, check_accounts,
  is_valid_user_name, seen_in, is_valid_role_id, RoleAccount,
}

-- An account is created, with a UID in the range, or adopted, with the name of an existing user.
abbrev pub IdentityFits : ℕ → ℕ → Bool → Option ℕ → Option Text → Type 0
IdentityFits min max adopt (some uid) none = (adopt ≡ false) × (min ≤ uid) × (uid ≤ max)
IdentityFits min max adopt none (some user) = (adopt ≡ true) × (is_valid_user_name user ≡ true)
IdentityFits min max adopt _ _ = ⊥

pub record AccountFits (min max : ℕ) (a : RoleAccount) : Type 0 where
  pub role : is_valid_role_id a.role ≡ true
  pub identity : IdentityFits min max a.adopt a.uid a.user

abbrev pub uid_list : Option ℕ → List ℕ
uid_list none = []
uid_list (some u) = u ∷ []

-- The UIDs that the declaration gives out.
unfoldable pub uids : List RoleAccount → List ℕ
uids [] = []
uids (a ∷ accts) = uid_list a.uid ++ uids accts

pub seen_in_iff : (seen : List Text) (s : Text) → (seen_in seen s ≡ true) ↔ In s seen
seen_in_iff [] s = (λ h. cc, λ h. absurd h)
seen_in_iff (x ∷ seen) s = (
  λ h. elim (Bool-cases (str_eq x s)) [
    | inl e ↦ inl (sym ((str_eq_iff x s).0 e))
    | inr e ↦ inr ((seen_in_iff seen s).0 (rw e at h))
  ],
  elim [
    | inl e ↦ rw ((str_eq_iff x s).1 (sym e))
    | inr m ↦ ground (arith, (seen_in_iff seen s).1 m)
  ],
)

pub not_seen : (seen : List Text) (s : Text) → ¬ In s seen → seen_in seen s ≡ false
not_seen seen s n = elim (Bool-cases (seen_in seen s)) [
  | inl e ↦ absurd (n ((seen_in_iff seen s).0 e))
  | inr e ↦ e
]

-- A UID is found exactly when it was seen.
find-none_iff :
    (seen : List (ℕ × Text)) (u : ℕ)
    → (find (λ p. p.0 == u) seen ≡ none) ↔ ¬ In u (map (λ p. p.0) seen)
find-none_iff [] u = (λ h i. i, λ h. refl)
find-none_iff ((v, r) ∷ seen) u = elim (Bool-cases (v == u)) [
  | inl e ↦ (λ h. absurd (cc (rw e at h)), λ h. absurd (h (inl (ground arith))))
  | inr e ↦ (
    λ h i. elim i [ inl q ↦ ground arith | inr m ↦ (find-none_iff seen u).0 (rw e at h) m ],
    λ h. rw e ((find-none_iff seen u).1 (λ m. h (inr m))),
  )
]

abbrev firsts : List (ℕ × Text) → List ℕ
firsts l = map (λ p. p.0) l

check_created_iff :
    (min max : ℕ) (su : List (ℕ × Text)) (role : Text) (adopt : Bool) (uid : ℕ)
    (su' : List (ℕ × Text))
    → (check_created min max su role adopt uid ≡ ok su') ↔ (
        ((adopt ≡ false) × (min ≤ uid) × (uid ≤ max))
        × ¬ In uid (firsts su)
        × (su' ≡ su ++ ((uid, role) ∷ [])))
unfolding check_created
check_created_iff min max su role true uid su' = (λ h. cc, λ h. absurd (cc (h.0.0)))
check_created_iff min max su role false uid su' = go (find (λ p. p.0 == uid) su) refl
  where
    go :
        (o : Option (ℕ × Text))
        → find (λ p. p.0 == uid) su ≡ o
        → (◌≡◌ {A = Result DeclarationError (List (ℕ × Text))}
            (if ltb uid min || ltb max uid
              then err (uid_out_of_range role uid min max)
              else (elim o [
                | some p ↦ err (uid_collision uid p.1 role)
                | none ↦ ok (su ++ ((uid, role) ∷ []))
              ]))
            (ok su'))
          ↔ (((false ≡ false) × (min ≤ uid) × (uid ≤ max))
              × ¬ In uid (firsts su)
              × (su' ≡ su ++ ((uid, role) ∷ [])))
    go none e = (
      λ h. ((refl, ground arith, ground arith), (find-none_iff su uid).0 e, ground arith),
      λ h. ground (arith, h.0.1, h.0.2, h.2),
    )
    go (some p) e = (λ h. absurd (ground arith), λ h. absurd (cc (e, (find-none_iff su uid).1 h.1)))

check_identity_iff :
    (min max : ℕ) (su : List (ℕ × Text)) (role : Text) (adopt : Bool) (uid : Option ℕ)
    (user : Option Text) (su' : List (ℕ × Text))
    → (check_identity min max su role adopt uid user ≡ ok su') ↔ (
        IdentityFits min max adopt uid user
        × Fresh (firsts su) (uid_list uid)
        × (su' ≡ su ++ map (λ u. (u, role)) (uid_list uid)))
unfolding check_identity
check_identity_iff min max su role adopt (some uid) (some user) su' = (λ h. cc, λ h. absurd h.0)
check_identity_iff min max su role adopt none none su' = (λ h. cc, λ h. absurd h.0)
check_identity_iff min max su role adopt (some uid) none su' =
    let r = check_created_iff min max su role adopt uid su' in
    (λ h. let q = r.0 h in (q.0, (q.1, tt), q.2), λ h. r.1 (h.0, h.1.0, h.2))
check_identity_iff min max su role adopt none (some user) su' = (
  λ h. ((ground arith, ground arith), tt, ground (arith, append-nil su)),
  λ h. ground (arith, h.0.0, h.0.1, h.2, append-nil su),
)

firsts-push :
    (su : List (ℕ × Text)) (role : Text) (us : List ℕ)
    → firsts (su ++ map (λ u. (u, role)) us) ≡ firsts su ++ us
firsts-push [] role [] = refl
firsts-push [] role (u ∷ us) = ap (λ l. u ∷ l) (firsts-push [] role us)
firsts-push (p ∷ su) role us = ap (λ l. p.0 ∷ l) (firsts-push su role us)

-- The loop accepts the accounts that fit, none of whose roles and UIDs was seen before.
pub check_accounts_iff :
    (min max : ℕ) (su : List (ℕ × Text)) (sr : List Text) (accts : List RoleAccount)
    → (check_accounts min max su sr accts ≡ ok tt) ↔ (
        All (AccountFits min max) accts
        × Fresh sr (map (λ (a : RoleAccount). a.role) accts)
        × Fresh (firsts su) (uids accts))
unfolding check_accounts uids
check_accounts_iff min max su sr [] = (λ h. (tt, tt, tt), λ h. refl)
check_accounts_iff min max su sr (a ∷ accts) =
    let rest = check_identity min max su a.role a.adopt a.uid a.user in
    (
      λ h.
          let g = (guard-eq_ok_iff (not (is_valid_role_id a.role)) _ _ tt).0 h in
          let s = (guard-eq_ok_iff (seen_in sr a.role) _ _ tt).0 g.1 in
          let b = >>=-eq_ok rest _ tt s.1 in
          let i = (check_identity_iff min max su a.role a.adopt a.uid a.user b.0).0 b.1 in
          let r = (check_accounts_iff min max b.0 (sr ++ (a.role ∷ [])) accts).0 b.2 in
          let e : firsts b.0 ≡ firsts su ++ uid_list a.uid =
            ap firsts i.2 ∙ firsts-push su a.role (uid_list a.uid) in
          (
            (record { role = ground arith; identity = i.0 }, r.0),
            (λ m. cc (s.0, (seen_in_iff sr a.role).1 m), r.1),
            (Fresh-append_iff (firsts su) (uid_list a.uid) (uids accts)).1
                (i.1, subst (λ l. Fresh l (uids accts)) e r.2),
          ),
      λ h.
          let f = (Fresh-append_iff (firsts su) (uid_list a.uid) (uids accts)).0 h.2 in
          let su' = su ++ map (λ u. (u, a.role)) (uid_list a.uid) in
          (guard-eq_ok_iff (not (is_valid_role_id a.role)) _ _ tt).1 (
            ground (arith, h.0.0.role),
            (guard-eq_ok_iff (seen_in sr a.role) _ _ tt).1 (
              not_seen sr a.role h.1.0,
              rw
                  ((check_identity_iff min max su a.role a.adopt a.uid a.user su').1
                    (h.0.0.identity, f.0, refl))
                  ((check_accounts_iff min max su' (sr ++ (a.role ∷ [])) accts).1 (
                    h.0.1,
                    h.1.1,
                    subst (λ l. Fresh l (uids accts)) (sym (firsts-push su a.role (uid_list a.uid)))
                        f.1,
                  )),
            ),
          ),
    )
