-- ===== src/Exposure/Access/Bits.antt =====
-- The three permissions one by one, and the loop over the applying entries of
-- src/exposure/access.rs.
use census.Exposure.Acl.{no_perms, masked, join, all_perms, AclPerms}
use census.Prelude.{
  [], sym, ap, ◌∙◌, arith, Bool-cases, ◌∷◌, inr, inl, ◌⊎◌, ◌↔◌, refl, ◌||◌, true, false, In, ◌&&◌,
  ◌≡◌, List, Bool,
}
use census.Exposure.Access.{AccessVia, credit}

-- One of the three permissions.
pub data Bit : Type 0 where
  read_bit write_bit execute_bit : Bit

abbrev pub has : Bit → AclPerms → Bool
has read_bit p = p.read
has write_bit p = p.write
has execute_bit p = p.execute

pub has-masked : (b : Bit) (p m : AclPerms) → has b (masked p m) ≡ (has b p && has b m)
unfolding masked
has-masked read_bit p m = refl
has-masked write_bit p m = refl
has-masked execute_bit p m = refl

has-join : (b : Bit) (p q : AclPerms) → has b (join p q) ≡ (has b p || has b q)
unfolding join
has-join read_bit p q = refl
has-join write_bit p q = refl
has-join execute_bit p q = refl

has-all_perms : (b : Bit) → has b all_perms ≡ true
has-all_perms read_bit = refl
has-all_perms write_bit = refl
has-all_perms execute_bit = refl

pub has-no_perms : (b : Bit) → has b no_perms ≡ false
has-no_perms read_bit = refl
has-no_perms write_bit = refl
has-no_perms execute_bit = refl

-- Some entry that applies grants the bit, within the mask.
pub record GroupGrants (l : List (AccessVia × AclPerms)) (limit : AclPerms) (b : Bit) : Type 0 where
  pub via : AccessVia
  pub perms : AclPerms
  pub listed : In (via, perms) l
  pub grants : has b perms ≡ true
  pub within : has b limit ≡ true

pub credit-access :
    (limit : AclPerms) (l : List (AccessVia × AclPerms)) (access : AclPerms) (via : AccessVia)
    (chosen : Bool) (b : Bit)
    → (has b (credit limit l access via chosen).access ≡ true)
      ↔ ((has b access ≡ true) ⊎ GroupGrants l limit b)
unfolding credit
credit-access limit [] access via chosen b =
    (λ h. inl h, elim [ inl e ↦ e | inr g ↦ absurd g.listed ])
credit-access limit ((v, p) ∷ l) access via chosen b =
    let now = masked p limit in
    let rest = credit-access limit l (join access now) _ _ b in
    (
      λ h. elim (rest.0 h) [
        | inl e ↦ elim (Bool-cases (has b access)) [
          | inl a ↦ inl a
          | inr a ↦
              let both : (has b p && has b limit) ≡ true =
                ground (arith, e, a, has-join b access now, has-masked b p limit) in
              inr (record {
                via = v;
                perms = p;
                listed = inl refl;
                grants = ground (arith, both);
                within = ground (arith, both);
              })
        ]
        | inr g ↦ inr (record {
          via = g.via;
          perms = g.perms;
          listed = inr g.listed;
          grants = g.grants;
          within = g.within;
        })
      ],
      elim [
        | inl a ↦ rest.1 (inl (has-join b access now ∙ ground (arith, a)))
        | inr g ↦ elim g.listed [
          | inl q ↦
              let same : g.perms ≡ p = ap (λ (x : AccessVia × AclPerms). x.1) q in
              rest.1 (
                inl (
                  has-join b access now
                  ∙ ground
                      (arith, has-masked b p limit, sym (ap (has b) same) ∙ g.grants, g.within)))
          | inr i ↦ rest.1 (
              inr (record {
                via = g.via;
                perms = g.perms;
                listed = i;
                grants = g.grants;
                within = g.within;
              }))
        ]
      ],
    )
