-- ===== src/Exposure/Access/Classes.antt =====
-- The classes of an ACL, as acl(5) describes them, and the searches of src/exposure/access.rs.
use census.Exposure.Acl.{user, group, user_obj, group_obj, mask, other, AclTag, AclEntry, AclPerms}
use census.Prelude.{
  [], In-append_right, subst, refl, Bool-cases, ◌∷◌, ◌∙◌, ◌↔◌, str_eq_iff, inr, true, some, none,
  inl, ap, Option-cases, ◌++◌, ◌⊎◌, ◌≡◌, In, Bool, Text, List, sym,
}
use census.Exposure.Access.{
  perms_or, find_perms, is_user, is_user_obj, is_other, is_mask, is_group_obj,
}

abbrev pub entry : AclTag → AclPerms → AclEntry
entry tag perms = record { tag = tag; perms = perms }

-- No entry has the tag.
abbrev pub Lacks : List AclEntry → AclTag → Type 0
Lacks acl tag = (perms : AclPerms) → ¬ In (entry tag perms) acl

-- The first entry with the tag has these permissions.
pub record First (acl : List AclEntry) (tag : AclTag) (perms : AclPerms) : Type 0 where
  pub before : List AclEntry
  pub after : List AclEntry
  pub split : acl ≡ before ++ (entry tag perms ∷ after)
  pub earlier : Lacks before tag

-- The permissions of the first entry with the tag, or these others if there is none.
abbrev pub FirstOr : List AclEntry → AclTag → AclPerms → AclPerms → Type 0
FirstOr acl tag default perms = First acl tag perms ⊎ (Lacks acl tag × (perms ≡ default))

-- The test is true of the tag alone.
abbrev pub Picks : (AclTag → Bool) → AclTag → Type 0
Picks pred tag = (t : AclTag) → (pred t ≡ true) ↔ (t ≡ tag)

pub is_user_obj-Picks : Picks is_user_obj user_obj
is_user_obj-Picks user_obj = (λ h. refl, λ h. refl)
is_user_obj-Picks (user u) = (λ h. cc, λ h. cc)
is_user_obj-Picks group_obj = (λ h. cc, λ h. cc)
is_user_obj-Picks (group g) = (λ h. cc, λ h. cc)
is_user_obj-Picks mask = (λ h. cc, λ h. cc)
is_user_obj-Picks other = (λ h. cc, λ h. cc)

pub is_group_obj-Picks : Picks is_group_obj group_obj
is_group_obj-Picks user_obj = (λ h. cc, λ h. cc)
is_group_obj-Picks (user u) = (λ h. cc, λ h. cc)
is_group_obj-Picks group_obj = (λ h. refl, λ h. refl)
is_group_obj-Picks (group g) = (λ h. cc, λ h. cc)
is_group_obj-Picks mask = (λ h. cc, λ h. cc)
is_group_obj-Picks other = (λ h. cc, λ h. cc)

pub is_mask-Picks : Picks is_mask mask
is_mask-Picks user_obj = (λ h. cc, λ h. cc)
is_mask-Picks (user u) = (λ h. cc, λ h. cc)
is_mask-Picks group_obj = (λ h. cc, λ h. cc)
is_mask-Picks (group g) = (λ h. cc, λ h. cc)
is_mask-Picks mask = (λ h. refl, λ h. refl)
is_mask-Picks other = (λ h. cc, λ h. cc)

pub is_other-Picks : Picks is_other other
is_other-Picks user_obj = (λ h. cc, λ h. cc)
is_other-Picks (user u) = (λ h. cc, λ h. cc)
is_other-Picks group_obj = (λ h. cc, λ h. cc)
is_other-Picks (group g) = (λ h. cc, λ h. cc)
is_other-Picks mask = (λ h. cc, λ h. cc)
is_other-Picks other = (λ h. refl, λ h. refl)

pub is_user-Picks : (name : Text) → Picks (is_user name) (user name)
is_user-Picks name user_obj = (λ h. cc, λ h. cc)
is_user-Picks name (user u) =
    (λ h. ap AclTag.user ((str_eq_iff u name).0 h), λ h. (str_eq_iff u name).1 (cc h))
is_user-Picks name group_obj = (λ h. cc, λ h. cc)
is_user-Picks name (group g) = (λ h. cc, λ h. cc)
is_user-Picks name mask = (λ h. cc, λ h. cc)
is_user-Picks name other = (λ h. cc, λ h. cc)

module _ (pred : AclTag → Bool) (tag : AclTag) (picks : Picks pred tag) where
  pub find_perms-First :
      (acl : List AclEntry) (q : AclPerms) → find_perms acl pred ≡ some q → First acl tag q
  unfolding find_perms
  find_perms-First [] q h = absurd (cc h)
  find_perms-First (e ∷ acl) q h = elim (Bool-cases (pred e.tag)) [
    | inl t ↦
        let here : some e.perms ≡ some q = rw t at h in
        let named : e.tag ≡ tag = (picks e.tag).0 t in
        record { before = []; after = acl; split = cc (here, named); earlier = λ p i. i }
    | inr t ↦
        let f = find_perms-First acl q (rw t at h) in
        record {
          before = e ∷ f.before;
          after = f.after;
          split = ap (λ r. e ∷ r) f.split;
          earlier = λ p. elim [
            | inl d ↦ cc (t, (picks e.tag).1 (ap (λ (x : AclEntry). x.tag) (sym d)))
            | inr i ↦ f.earlier p i
          ];
        }
  ]

  find_perms-after :
      (before after : List AclEntry) (q : AclPerms)
      → Lacks before tag
      → find_perms (before ++ (entry tag q ∷ after)) pred ≡ some q
  unfolding find_perms
  find_perms-after [] after q l = rw ((picks tag).1 refl) refl
  find_perms-after (e ∷ before) after q l = elim (Bool-cases (pred e.tag)) [
    | inl t ↦ absurd (l e.perms (inl (ap (λ t. entry t e.perms) (sym ((picks e.tag).0 t)))))
    | inr t ↦ rw t (find_perms-after before after q (λ p i. l p (inr i)))
  ]

  pub First-find_perms :
      (acl : List AclEntry) (q : AclPerms) → First acl tag q → find_perms acl pred ≡ some q
  First-find_perms acl q f =
      ap (λ l. find_perms l pred) f.split ∙ find_perms-after f.before f.after q f.earlier

  pub find_perms-Lacks : (acl : List AclEntry) → find_perms acl pred ≡ none → Lacks acl tag
  unfolding find_perms
  find_perms-Lacks [] h q i = i
  find_perms-Lacks (e ∷ acl) h q i = elim (Bool-cases (pred e.tag)) [
    | inl t ↦ absurd (cc (rw t at h))
    | inr t ↦ (elim i [
      | inl d ↦ cc (t, (picks e.tag).1 (ap (λ (x : AclEntry). x.tag) (sym d)))
      | inr j ↦ find_perms-Lacks acl (rw t at h) q j
    ])
  ]

  pub Lacks-find_perms : (acl : List AclEntry) → Lacks acl tag → find_perms acl pred ≡ none
  Lacks-find_perms acl l = elim (Option-cases (find_perms acl pred)) [
    | inl e ↦ e
    | inr x ↦
        let f = find_perms-First acl x.0 x.1 in
        absurd (
          l x.0 (
            subst (λ r. In (entry tag x.0) r) (sym f.split)
              (In-append_right (entry tag x.0) f.before _ (inl refl))))
  ]

  pub find_perms-FirstOr :
      (acl : List AclEntry) (d : AclPerms) → FirstOr acl tag d (perms_or (find_perms acl pred) d)
  find_perms-FirstOr acl d = elim (Option-cases (find_perms acl pred)) [
    | inl e ↦ rw e (inr (find_perms-Lacks acl e, refl))
    | inr x ↦ rw x.1 (inl (find_perms-First acl x.0 x.1))
  ]

  pub FirstOr-find_perms :
      (acl : List AclEntry) (d q : AclPerms)
      → FirstOr acl tag d q
      → q ≡ perms_or (find_perms acl pred) d
  FirstOr-find_perms acl d q (inl f) = rw (First-find_perms acl q f) refl
  FirstOr-find_perms acl d q (inr l) = rw (Lacks-find_perms acl l.0) l.1
