-- ===== src/Exposure/Access/Via.antt =====
-- The entry to which `effective_acl` of src/exposure/access.rs credits an access.
use census.Exposure.Acl.{user, masked, no_perms, AclEntry, join, some_perm, AclPerms}
use census.Exposure.Access.{
  is_user, other_bits, acl_user, by_named_user, owner, acl_named_user, acl_mask, Effective,
  AccessVia, group_or_other, effective_acl, credit, applying, Principal, InodeRecord,
}
use census.Prelude.{
  ◌≢◌, ◌||◌, not, ◌&&◌, if◌then◌else◌, ◌∙◌, refl, none, sym, ap, [], subst, ◌==◌, ◌⊎◌, some,
  Bool-cases, true, inr, arith, ◌∷◌, inl, false, Option, In, ◌≡◌, Bool, List,
}
use census.Exposure.Access.Granted.{MaskLets-iff, empty_iff_no_entry, MaskLets}
use census.Exposure.Access.Bits.{execute_bit, write_bit, has-masked, read_bit, has, Bit}
use census.Exposure.Access.Classes.{find_perms-Lacks, is_user-Picks, find_perms-First, Lacks, First}
use census.Exposure.Access.Members.{applying-GroupEntry, GroupEntry}

some_perm-join : (p q : AclPerms) → some_perm q ≡ false → some_perm (join p q) ≡ some_perm p
unfolding some_perm join
some_perm-join p q h = ground (arith, h)

-- Where the loop ends up: at what it came with, when an entry was chosen before or none grants
-- anything, or at an entry that grants something within the mask.
abbrev Credited :
    AclPerms → List (AccessVia × AclPerms) → AclPerms → AccessVia → Bool → Effective → Type 0
Credited limit l access via chosen r =
    ((r.via ≡ via) × ((chosen ≡ true) ⊎ (some_perm r.access ≡ some_perm access)))
    ⊎ ((perms : AclPerms) × In (r.via, perms) l × (some_perm (masked perms limit) ≡ true))

credit-Credited :
    (limit : AclPerms) (l : List (AccessVia × AclPerms)) (access : AclPerms) (via : AccessVia)
    (chosen : Bool)
    → Credited limit l access via chosen (credit limit l access via chosen)
unfolding credit
credit-Credited limit [] access via chosen = inl (refl, inr refl)
credit-Credited limit ((v, p) ∷ l) access via chosen =
    go chosen (some_perm (masked p limit)) refl
      (λ w c. credit-Credited limit l (join access (masked p limit)) w c)
  where
    go :
        (c b : Bool)
        → some_perm (masked p limit) ≡ b
        → ((w : AccessVia) (d : Bool)
            → Credited limit l
                (join access (masked p limit))
                w
                d
                (credit limit l (join access (masked p limit)) w d))
        → Credited limit ((v, p) ∷ l) access via c (
            credit limit l
              (join access (masked p limit))
              (if b && not c then v else via)
              (c || (b && not c)))
    go true true e rest = elim (rest via true) [
      | inl a ↦ inl (a.0, inl refl)
      | inr b ↦ inr (b.0, inr b.1, b.2)
    ]
    go true false e rest = elim (rest via true) [
      | inl a ↦ inl (a.0, inl refl)
      | inr b ↦ inr (b.0, inr b.1, b.2)
    ]
    go false true e rest = elim (rest v true) [
      | inl a ↦ inr (p, inl (ap (λ x. (x, p)) a.0), e)
      | inr b ↦ inr (b.0, inr b.1, b.2)
    ]
    go false false e rest = elim (rest via false) [
      | inl a ↦ inl (
        a.0,
        elim a.1 [
          | inl z ↦ absurd (cc z)
          | inr s ↦ inr (s ∙ some_perm-join access (masked p limit) e)
        ],
      )
      | inr b ↦ inr (b.0, inr b.1, b.2)
    ]

-- The credit names the class that decides, which is the first one that has an entry for the
-- principal; where that is the group class, an entry that applies.
pub data ViaFits (rec : InodeRecord) (acl : List AclEntry) (p : Principal) (r : Effective)
    : Type 0 where
  by_owner : p.uid ≡ rec.uid → r.via ≡ owner → ViaFits rec acl p r
  by_user :
      (perms : AclPerms)
      → p.uid ≢ rec.uid
      → First acl (user p.name) perms
      → r.via ≡ acl_user p.name
      → ViaFits rec acl p r
  by_group :
      (perms : AclPerms)
      → p.uid ≢ rec.uid
      → Lacks acl (user p.name)
      → GroupEntry rec acl p r.via perms
      → (((b : Bit) → has b r.access ≡ false) ⊎ ((b : Bit) × (has b perms ≡ true) × MaskLets acl b))
      → ViaFits rec acl p r
  by_others :
      p.uid ≢ rec.uid
      → Lacks acl (user p.name)
      → ((via : AccessVia) (q : AclPerms) → ¬ GroupEntry rec acl p via q)
      → r.via ≡ other_bits
      → ViaFits rec acl p r

some_perm-false : (p : AclPerms) → some_perm p ≡ false → (b : Bit) → has b p ≡ false
unfolding some_perm
some_perm-false p h read_bit = ground (arith, h)
some_perm-false p h write_bit = ground (arith, h)
some_perm-false p h execute_bit = ground (arith, h)

some_perm-bit : (p : AclPerms) → some_perm p ≡ true → (b : Bit) × (has b p ≡ true)
unfolding some_perm
some_perm-bit p h = elim (Bool-cases p.read) [
  | inl e ↦ (read_bit, e)
  | inr e ↦ (elim (Bool-cases p.write) [
    | inl f ↦ (write_bit, f)
    | inr f ↦ (execute_bit, ground (arith, e, f, h))
  ])
]

-- A bit that is left within the mask is one that the entry has and the mask lets through.
masked-grants :
    (acl : List AclEntry) (perms : AclPerms)
    → some_perm (masked perms (acl_mask acl)) ≡ true
    → (b : Bit) × (has b perms ≡ true) × MaskLets acl b
masked-grants acl perms h =
    let x = some_perm-bit (masked perms (acl_mask acl)) h in
    let both : (has x.0 perms && has x.0 (acl_mask acl)) ≡ true =
      sym (has-masked x.0 perms (acl_mask acl)) ∙ x.1 in
    (x.0, ground (arith, both), (MaskLets-iff acl x.0).1 (ground (arith, both)))

group_or_other-ViaFits :
    (rec : InodeRecord) (acl : List AclEntry) (p : Principal) (l : List (AccessVia × AclPerms))
    → applying rec acl p ≡ l
    → p.uid ≢ rec.uid
    → Lacks acl (user p.name)
    → ViaFits rec acl p (group_or_other rec acl l)
unfolding group_or_other some_perm
group_or_other-ViaFits rec acl p [] e n k =
    ViaFits.by_others n k ((empty_iff_no_entry rec acl p).0 e) refl
group_or_other-ViaFits rec acl p ((v, q) ∷ l) e n k =
    let r = credit (acl_mask acl) ((v, q) ∷ l) no_perms v false in
    let at_list : (q' : AclPerms) → In (r.via, q') ((v, q) ∷ l) → GroupEntry rec acl p r.via q' =
      λ q' i. applying-GroupEntry rec acl p r.via q' (subst (λ x. In (r.via, q') x) (sym e) i) in
    elim (credit-Credited (acl_mask acl) ((v, q) ∷ l) no_perms v false) [
      | inl a ↦
          ViaFits.by_group q n k (at_list q (inl (ap (λ x. (x, q)) a.0)))
            (elim a.1 [ inl z ↦ absurd (cc z) | inr s ↦ inl (some_perm-false r.access s) ])
      | inr b ↦ ViaFits.by_group b.0 n k (at_list b.0 b.1) (inr (masked-grants acl b.0 b.2))
    ]

-- Under an extended ACL an access is credited to the class that decides it: the owner's alone for
-- the owner; for another, the user's name where an entry names it; without such an entry, an entry
-- of the group class that applies, where there is one; and the others' only where there is none. In
-- the group class, where any permission is granted at all, the credited entry itself grants one
-- within the mask.
pub effective_acl-ViaFits :
    (rec : InodeRecord) (acl : List AclEntry) (p : Principal)
    → ViaFits rec acl p (effective_acl rec acl p)
unfolding effective_acl acl_named_user
effective_acl-ViaFits rec acl p = elim (Bool-cases (p.uid == rec.uid)) [
  | inl e ↦ rw e (ViaFits.by_owner (ground (arith, e)) refl)
  | inr e ↦ rw e (go (λ q. ground (arith, e, q)) (acl_named_user acl p.name) refl)
]
  where
    go :
        p.uid ≢ rec.uid
        → (o : Option AclPerms) → acl_named_user acl p.name ≡ o
        → ViaFits rec acl p (by_named_user rec acl p o)
    go n (some perms) e =
        ViaFits.by_user perms n
          (find_perms-First (is_user p.name) (user p.name) (is_user-Picks p.name) acl perms e) refl
    go n none e =
        group_or_other-ViaFits rec acl p (applying rec acl p) refl n
          (find_perms-Lacks (is_user p.name) (user p.name) (is_user-Picks p.name) acl e)
