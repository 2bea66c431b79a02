-- ===== src/Exposure/Access/Granted.antt =====
-- The permissions that `effective_acl` of src/exposure/access.rs grants, class by class.
use census.Exposure.Acl.{other, user, user_obj, mask, AclEntry, no_perms, all_perms, AclPerms}
use census.Exposure.Access.{
  Effective, is_user, is_mask, mode_triple, by_named_user, acl_named_user, applying, acl_mask,
  is_user_obj, is_other, Principal, AccessVia, group_or_other, effective_acl, InodeRecord,
}
use census.Prelude.{
  subst, ◌≢◌, sym, ap, ◌∙◌, none, arith, [], Bool-cases, inr, inl, ◌∷◌, some, ◌==◌, ◌↔◌, refl,
  Option, true, false, In, ◌&&◌, ◌≡◌, List,
}
use census.Exposure.Access.Classes.{
  Lacks-find_perms, is_other-Picks, find_perms-Lacks, is_user-Picks, find_perms-FirstOr,
  First-find_perms, is_user_obj-Picks, is_mask-Picks, First, find_perms-First, Lacks,
  FirstOr-find_perms, FirstOr,
}
use census.Exposure.Access.Members.{GroupEntry-applying, applying-GroupEntry, GroupEntry}
use census.Exposure.Access.Bits.{has-no_perms, has-masked, credit-access, has, Bit}

-- The mask lets the permission through; without a mask, everything passes.
pub record MaskLets (acl : List AclEntry) (b : Bit) : Type 0 where
  pub limit : AclPerms
  pub first : FirstOr acl mask all_perms limit
  pub lets : has b limit ≡ true

pub MaskLets-iff : (acl : List AclEntry) (b : Bit) → MaskLets acl b ↔ (has b (acl_mask acl) ≡ true)
unfolding acl_mask
MaskLets-iff acl b = (
  λ m.
      ap (has b) (sym (FirstOr-find_perms is_mask mask is_mask-Picks acl all_perms m.limit m.first))
      ∙ m.lets,
  λ h. record {
    limit = acl_mask acl;
    first = find_perms-FirstOr is_mask mask is_mask-Picks acl all_perms;
    lets = h;
  },
)

-- The permission is granted by acl(5): each class decides only where those before it do not. The
-- owner's and the others' permissions are those of the mode when the ACL has no entry for them.
pub data AclGrants (rec : InodeRecord) (acl : List AclEntry) (p : Principal) (b : Bit)
    : Type 0 where
  to_owner :
      (perms : AclPerms)
      → p.uid ≡ rec.uid
      → FirstOr acl user_obj (mode_triple rec.mode 6) perms
      → has b perms ≡ true
      → AclGrants rec acl p b
  to_user :
      (perms : AclPerms)
      → p.uid ≢ rec.uid
      → First acl (user p.name) perms
      → has b perms ≡ true
      → MaskLets acl b
      → AclGrants rec acl p b
  to_group :
      (via : AccessVia) (perms : AclPerms)
      → p.uid ≢ rec.uid
      → Lacks acl (user p.name)
      → GroupEntry rec acl p via perms
      → has b perms ≡ true
      → MaskLets acl b
      → AclGrants rec acl p b
  to_others :
      (perms : AclPerms)
      → p.uid ≢ rec.uid
      → Lacks acl (user p.name)
      → ((via : AccessVia) (q : AclPerms) → ¬ GroupEntry rec acl p via q)
      → FirstOr acl other (mode_triple rec.mode 0) perms
      → has b perms ≡ true
      → AclGrants rec acl p b

pub empty_iff_no_entry :
    (rec : InodeRecord) (acl : List AclEntry) (p : Principal)
    → (applying rec acl p ≡ []) ↔ ((via : AccessVia) (q : AclPerms) → ¬ GroupEntry rec acl p via q)
empty_iff_no_entry rec acl p = (
  λ e via q g. let l = GroupEntry-applying rec acl p via q g in subst (λ x. In (l.0, q) x) e l.1,
  λ n. go (applying rec acl p) refl n,
)
  where
    go :
        (l : List (AccessVia × AclPerms))
        → applying rec acl p ≡ l
        → ((via : AccessVia) (q : AclPerms) → ¬ GroupEntry rec acl p via q)
        → l ≡ []
    go [] e n = refl
    go ((v, q) ∷ l) e n =
        absurd
          (n v q (applying-GroupEntry rec acl p v q (subst (λ x. In (v, q) x) (sym e) (inl refl))))

-- The access that the loop over a list of entries gives.
group_or_other-grants :
    (rec : InodeRecord) (acl : List AclEntry) (p : Principal) (b : Bit)
    (l : List (AccessVia × AclPerms))
    → applying rec acl p ≡ l
    → p.uid ≢ rec.uid
    → Lacks acl (user p.name)
    → has b (group_or_other rec acl l).access ≡ true
    → AclGrants rec acl p b
unfolding group_or_other
group_or_other-grants rec acl p b [] e n k h =
    AclGrants.to_others _ n k ((empty_iff_no_entry rec acl p).0 e)
      (find_perms-FirstOr is_other other is_other-Picks acl (mode_triple rec.mode 0)) h
group_or_other-grants rec acl p b (x ∷ l) e n k h =
    elim ((credit-access (acl_mask acl) (x ∷ l) no_perms x.0 false b).0 h) [
      | inl z ↦ absurd (cc (z, has-no_perms b))
      | inr g ↦
          let there = subst (λ r. In (g.via, g.perms) r) (sym e) g.listed in
          AclGrants.to_group g.via g.perms n k (applying-GroupEntry rec acl p g.via g.perms there)
            g.grants ((MaskLets-iff acl b).1 g.within)
    ]

group_or_other_complete :
    (rec : InodeRecord) (acl : List AclEntry) (p : Principal) (b : Bit) (perms : AclPerms)
    (w : AccessVia) (l : List (AccessVia × AclPerms))
    → In (w, perms) l
    → has b perms ≡ true
    → MaskLets acl b
    → has b (group_or_other rec acl l).access ≡ true
unfolding group_or_other
group_or_other_complete rec acl p b perms w [] i h m = absurd i
group_or_other_complete rec acl p b perms w (x ∷ l) i h m =
    (credit-access (acl_mask acl) (x ∷ l) no_perms x.0 false b).1 (
      inr (record {
        via = w;
        perms = perms;
        listed = i;
        grants = h;
        within = (MaskLets-iff acl b).0 m;
      }))

access-AclGrants :
    (rec : InodeRecord) (acl : List AclEntry) (p : Principal) (b : Bit)
    → has b (effective_acl rec acl p).access ≡ true
    → AclGrants rec acl p b
unfolding effective_acl acl_named_user
access-AclGrants rec acl p b h = elim (Bool-cases (p.uid == rec.uid)) [
  | inl e ↦
      AclGrants.to_owner _ (ground (arith, e))
        (find_perms-FirstOr is_user_obj user_obj is_user_obj-Picks acl (mode_triple rec.mode 6))
        (rw e at h)
  | inr e ↦ go (λ q. ground (arith, e, q)) (acl_named_user acl p.name) refl (rw e at h)
]
  where
    go :
        p.uid ≢ rec.uid
        → (o : Option AclPerms) → acl_named_user acl p.name ≡ o
        → has b (by_named_user rec acl p o).access ≡ true
        → AclGrants rec acl p b
    go n (some perms) e h =
        let both : (has b perms && has b (acl_mask acl)) ≡ true =
          sym (has-masked b perms (acl_mask acl)) ∙ h in
        AclGrants.to_user perms n
          (find_perms-First (is_user p.name) (user p.name) (is_user-Picks p.name) acl perms e)
          (ground (arith, both)) ((MaskLets-iff acl b).1 (ground (arith, both)))
    go n none e h =
        group_or_other-grants rec acl p b (applying rec acl p) refl n
          (find_perms-Lacks (is_user p.name) (user p.name) (is_user-Picks p.name) acl e) h

-- After the class of the owner.
not_owner :
    (rec : InodeRecord) (acl : List AclEntry) (p : Principal) (o : Option AclPerms)
    → p.uid ≢ rec.uid
    → acl_named_user acl p.name ≡ o
    → effective_acl rec acl p ≡ by_named_user rec acl p o
unfolding effective_acl
not_owner rec acl p o n e =
    let other_uid : (p.uid == rec.uid) ≡ false = ground (arith, n) in
    rw other_uid (ap (by_named_user rec acl p) e)

AclGrants-access :
    (rec : InodeRecord) (acl : List AclEntry) (p : Principal) (b : Bit)
    → AclGrants rec acl p b
    → has b (effective_acl rec acl p).access ≡ true
unfolding effective_acl acl_named_user group_or_other
AclGrants-access rec acl p b (to_owner perms e f h) =
    let same : (p.uid == rec.uid) ≡ true = ground (arith, e) in
    rw same (
      ap (has b) (sym (FirstOr-find_perms is_user_obj user_obj is_user_obj-Picks acl _ perms f))
      ∙ h)
AclGrants-access rec acl p b (to_user perms n f h m) =
    let found =
      First-find_perms (is_user p.name) (user p.name) (is_user-Picks p.name) acl perms f in
    let within = (MaskLets-iff acl b).0 m in
    ap (λ (r : Effective). has b r.access) (not_owner rec acl p (some perms) n found)
    ∙ (has-masked b perms (acl_mask acl) ∙ ground (arith, h, within))
AclGrants-access rec acl p b (to_group via perms n k g h m) =
    let l = GroupEntry-applying rec acl p via perms g in
    let missing = Lacks-find_perms (is_user p.name) (user p.name) (is_user-Picks p.name) acl k in
    ap (λ (r : Effective). has b r.access) (not_owner rec acl p none n missing)
    ∙ group_or_other_complete rec acl p b perms l.0 (applying rec acl p) l.1 h m
AclGrants-access rec acl p b (to_others perms n k g f h) =
    let missing = Lacks-find_perms (is_user p.name) (user p.name) (is_user-Picks p.name) acl k in
    let empty = (empty_iff_no_entry rec acl p).1 g in
    ap (λ (r : Effective). has b r.access) (not_owner rec acl p none n missing)
    ∙ (ap (λ l. has b (group_or_other rec acl l).access) empty
        ∙ (ap (has b) (sym (FirstOr-find_perms is_other other is_other-Picks acl _ perms f)) ∙ h))

-- A permission is granted by an extended ACL exactly as the classes of POSIX ACLs say: to the owner
-- by the owner's entry alone; else to a named user by the first entry of that name, within the
-- mask; else, when an entry of the owning group or of a named group applies, by some such entry,
-- within the mask, and never by the entry of the others; else by the entry of the others. Without a
-- mask nothing is held back; without an entry of the owner or of the others, the mode's bits stand
-- in for it.
pub effective_acl-access_iff :
    (rec : InodeRecord) (acl : List AclEntry) (p : Principal) (b : Bit)
    → (has b (effective_acl rec acl p).access ≡ true) ↔ AclGrants rec acl p b
effective_acl-access_iff rec acl p b =
    (λ h. access-AclGrants rec acl p b h, λ g. AclGrants-access rec acl p b g)
