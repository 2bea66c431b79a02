-- ===== src/Exposure/Access/Members.antt =====
-- The group class of an ACL, and the list `applying` of src/exposure/access.rs.
use census.Exposure.Acl.{user, group, user_obj, group_obj, mask, other, AclTag, AclEntry, AclPerms}
use census.Prelude.{
  none, In-append_right, ◌∙◌, subst, refl, arith, [], str_eq_iff, inr, ap, In-append_left, ◌==◌,
  ◌∷◌, str_eq, inl, find, Bool-cases, any_of_In, any-true, true, some, In-append, ◌≡◌, Option, In,
  ℕ, Text, List, sym,
}
use census.Exposure.Access.{
  owning_entry, is_group_obj, group_name, group_bits, acl_group, named_entry, find_perms,
  MemberGroup, AccessVia, named_entries, in_named_group, group_name_for_gid, applying, Principal,
  InodeRecord,
}
use census.Exposure.Access.Classes.{
  First-find_perms, is_group_obj-Picks, find_perms-First, entry, First,
}

-- An entry of the group class that applies to the principal: the one of the owning group, for a
-- member of that group, or a named one, for a member of a group of that name.
pub data GroupEntry (rec : InodeRecord) (acl : List AclEntry) (p : Principal)
    : AccessVia → AclPerms → Type 0 where
  owning :
      (g : MemberGroup) (perms : AclPerms)
      → In g p.groups
      → g.gid ≡ rec.gid
      → First acl group_obj perms
      → GroupEntry rec acl p (group_bits g.name) perms
  named :
      (g : MemberGroup) (perms : AclPerms)
      → In g p.groups
      → In (entry (group g.name) perms) acl
      → GroupEntry rec acl p (acl_group g.name) perms

group_name_for_gid-some :
    (p : Principal) (gid : ℕ) (name : Text)
    → group_name_for_gid p gid ≡ some name
    → (g : MemberGroup) × In g p.groups × (g.gid ≡ gid) × (g.name ≡ name)
unfolding group_name_for_gid
group_name_for_gid-some p gid name h = go p.groups h
  where
    go :
        (gs : List MemberGroup)
        → group_name (find (λ g. g.gid == gid) gs) ≡ some name
        → (g : MemberGroup) × In g gs × (g.gid ≡ gid) × (g.name ≡ name)
    go [] h = absurd (cc h)
    go (g ∷ gs) h = elim (Bool-cases (g.gid == gid)) [
      | inl e ↦
          let here : some g.name ≡ some name = rw e at h in
          (g, inl refl, ground (arith, e), cc here)
      | inr e ↦ let r = go gs (rw e at h) in (r.0, inr r.1, r.2, r.3)
    ]

group_name_for_gid-member :
    (p : Principal) (gid : ℕ) (g : MemberGroup)
    → In g p.groups
    → g.gid ≡ gid
    → (name : Text) × (group_name_for_gid p gid ≡ some name)
unfolding group_name_for_gid
group_name_for_gid-member p gid g i e = go p.groups i
  where
    go :
        (gs : List MemberGroup)
        → In g gs
        → (name : Text) × (group_name (find (λ m. m.gid == gid) gs) ≡ some name)
    go [] j = absurd j
    go (m ∷ gs) j = elim (Bool-cases (m.gid == gid)) [
      | inl t ↦ (m.name, rw t refl)
      | inr t ↦ (elim j [
        | inl d ↦
            let same : m.gid ≡ gid = ap (λ (x : MemberGroup). x.gid) (sym d) ∙ e in
            absurd (ground (arith, t, same))
        | inr k ↦ rw t (go gs k)
      ])
    ]

in_named_group-some :
    (p : Principal) (name : Text)
    → in_named_group p name ≡ true
    → (g : MemberGroup) × In g p.groups × (g.name ≡ name)
unfolding in_named_group
in_named_group-some p name h =
    let r = any-true (λ (g : MemberGroup). str_eq g.name name) p.groups h in
    (r.0, r.1, (str_eq_iff r.0.name name).0 r.2)

in_named_group-member :
    (p : Principal) (g : MemberGroup) → In g p.groups → in_named_group p g.name ≡ true
unfolding in_named_group
in_named_group-member p g i =
    any_of_In (λ (m : MemberGroup). str_eq m.name g.name) g p.groups i
      ((str_eq_iff g.name g.name).1 refl)

In-owning :
    (rec : InodeRecord) (acl : List AclEntry) (p : Principal) (v : AccessVia) (q : AclPerms)
    (o : Option Text) (e : Option AclPerms)
    → group_name_for_gid p rec.gid ≡ o
    → find_perms acl is_group_obj ≡ e
    → In (v, q) (owning_entry o e)
    → GroupEntry rec acl p v q
In-owning rec acl p v q none e a b i = absurd i
In-owning rec acl p v q (some n) none a b i = absurd i
In-owning rec acl p v q (some n) (some perms) a b (inl i) =
    let m = group_name_for_gid-some p rec.gid n a in
    let f = find_perms-First is_group_obj group_obj is_group_obj-Picks acl perms b in
    let there = GroupEntry.owning m.0 perms m.1 m.2 f in
    subst (λ (x : AccessVia × AclPerms). GroupEntry rec acl p x.0 x.1)
      (ap (λ w. (group_bits w, perms)) m.3 ∙ sym i) there
In-owning rec acl p v q (some n) (some perms) a b (inr i) = absurd i

In-named :
    (p : Principal) (v : AccessVia) (q : AclPerms) (t : AclTag) (perms : AclPerms)
    → In (v, q) (named_entry p t perms)
    → (g : MemberGroup) × In g p.groups × (t ≡ group g.name) × (v ≡ acl_group g.name) × (q ≡ perms)
In-named p v q (group n) perms i = elim (Bool-cases (in_named_group p n)) [
  | inl e ↦ (elim (rw e at i) [
    | inl a ↦
        let m = in_named_group-some p n e in
        (
          m.0,
          m.1,
          ap AclTag.group (sym m.2),
          ap (λ (x : AccessVia × AclPerms). x.0) a ∙ ap AccessVia.acl_group (sym m.2),
          ap (λ (x : AccessVia × AclPerms). x.1) a,
        )
    | inr z ↦ absurd z
  ])
  | inr e ↦ absurd (rw e at i)
]
In-named p v q user_obj perms i = absurd i
In-named p v q (user u) perms i = absurd i
In-named p v q group_obj perms i = absurd i
In-named p v q mask perms i = absurd i
In-named p v q other perms i = absurd i

In-named_entries :
    (p : Principal) (v : AccessVia) (q : AclPerms) (acl : List AclEntry)
    → In (v, q) (named_entries p acl)
    → (g : MemberGroup) × In g p.groups × In (entry (group g.name) q) acl × (v ≡ acl_group g.name)
unfolding named_entries
In-named_entries p v q [] i = absurd i
In-named_entries p v q (e ∷ acl) i =
    elim (In-append (v, q) (named_entry p e.tag e.perms) (named_entries p acl) i) [
      | inl a ↦ let r = In-named p v q e.tag e.perms a in (r.0, r.1, inl (cc (r.2, r.4)), r.3)
      | inr b ↦ let r = In-named_entries p v q acl b in (r.0, r.1, inr r.2, r.3)
    ]

named_entries-In :
    (p : Principal) (g : MemberGroup) (q : AclPerms) (acl : List AclEntry)
    → In g p.groups
    → In (entry (group g.name) q) acl
    → In (acl_group g.name, q) (named_entries p acl)
unfolding named_entries
named_entries-In p g q [] i j = absurd j
named_entries-In p g q (e ∷ acl) i (inl d) =
    In-append_left (acl_group g.name, q) (named_entry p e.tag e.perms) (named_entries p acl)
      (subst (λ (x : AclEntry). In (acl_group g.name, q) (named_entry p x.tag x.perms)) d
        (rw (in_named_group-member p g i) (inl refl)))
named_entries-In p g q (e ∷ acl) i (inr j) =
    In-append_right (acl_group g.name, q) (named_entry p e.tag e.perms) (named_entries p acl)
      (named_entries-In p g q acl i j)

pub applying-GroupEntry :
    (rec : InodeRecord) (acl : List AclEntry) (p : Principal) (v : AccessVia) (q : AclPerms)
    → In (v, q) (applying rec acl p)
    → GroupEntry rec acl p v q
unfolding applying
applying-GroupEntry rec acl p v q i =
    elim (In-append (v, q)
      (owning_entry (group_name_for_gid p rec.gid) (find_perms acl is_group_obj))
      (named_entries p acl) i) [
        | inl a ↦ In-owning rec acl p v q _ _ refl refl a
        | inr b ↦
            let r = In-named_entries p v q acl b in
            subst (λ x. GroupEntry rec acl p x q) (sym r.3) (GroupEntry.named r.0 q r.1 r.2)
      ]

-- Each applying entry is listed, the owning group's under the name of the first such group.
pub GroupEntry-applying :
    (rec : InodeRecord) (acl : List AclEntry) (p : Principal) (v : AccessVia) (q : AclPerms)
    → GroupEntry rec acl p v q
    → (w : AccessVia) × In (w, q) (applying rec acl p)
unfolding applying
GroupEntry-applying rec acl p v q (owning g perms i e f) =
    let n = group_name_for_gid-member p rec.gid g i e in
    let found = First-find_perms is_group_obj group_obj is_group_obj-Picks acl perms f in
    (group_bits n.0, rw (n.1, found) (inl refl))
GroupEntry-applying rec acl p v q (named g perms i j) = (
  acl_group g.name,
  In-append_right (acl_group g.name, perms) (owning_entry _ _) (named_entries p acl)
      (named_entries-In p g perms acl i j),
)
