-- ===== src/Exposure/Access.antt =====
-- The access that an inode gives a principal (src/exposure/access.rs).
pub mod Classes
pub mod Members
pub mod Bits
pub mod Granted
pub mod Via
use Prim.Native.Nat.{bit_and}
use census.Exposure.Acl.{
  join, user_obj, other, mask, group_obj, some_perm, no_perms, user, masked, is_extended, all_perms,
  group, AclEntry, AclTag, AclPerms,
}
use census.Prelude.{
  ◌^◌, ◌/◌, ◌||◌, not, ◌&&◌, str_eq, false, [], ◌∷◌, true, none, any, ◌++◌, some, find, Bool, ◌==◌,
  ℕ, if◌then◌else◌, Text, Option, List,
}

-- A group of a principal, `ResolvedGroup` of the module.
pub record MemberGroup : Type 0 where
  pub name : Text
  pub gid : ℕ

pub record Principal : Type 0 where
  pub name : Text
  pub uid : ℕ
  pub groups : List MemberGroup
  pub home : Option Text

-- `InodeRecord` of src/exposure/index.rs; the object class plays no part in access.
pub record InodeRecord : Type 0 where
  pub path : Text
  pub uid : ℕ
  pub gid : ℕ
  pub mode : ℕ
  pub acl : Option (List AclEntry)

pub data AccessVia : Type 0 where
  owner : AccessVia
  acl_user : Text → AccessVia
  acl_group : Text → AccessVia
  group_bits : Text → AccessVia
  other_bits : AccessVia

pub record Effective : Type 0 where
  pub access : AclPerms
  pub via : AccessVia

abbrev pub group_name : Option MemberGroup → Option Text
group_name none = none
group_name (some g) = some g.name

unfoldable pub group_name_for_gid : Principal → ℕ → Option Text
group_name_for_gid p gid = group_name (find (λ g. g.gid == gid) p.groups)

unfoldable pub in_named_group : Principal → Text → Bool
in_named_group p name = any (λ g. str_eq g.name name) p.groups

unfoldable pub mode_triple : ℕ → ℕ → AclPerms
mode_triple mode shift =
    let bits = bit_and (mode / 2 ^ shift) 7 in
    record {
      read = not (bit_and bits 4 == 0);
      write = not (bit_and bits 2 == 0);
      execute = not (bit_and bits 1 == 0);
    }

abbrev pub perms_of : Option AclEntry → Option AclPerms
perms_of none = none
perms_of (some e) = some e.perms

unfoldable pub find_perms : List AclEntry → (AclTag → Bool) → Option AclPerms
find_perms acl pred = perms_of (find (λ e. pred e.tag) acl)

abbrev pub is_user_obj : AclTag → Bool
is_user_obj user_obj = true
is_user_obj _ = false

abbrev pub is_group_obj : AclTag → Bool
is_group_obj group_obj = true
is_group_obj _ = false

abbrev pub is_mask : AclTag → Bool
is_mask mask = true
is_mask _ = false

abbrev pub is_other : AclTag → Bool
is_other other = true
is_other _ = false

abbrev pub is_user : Text → AclTag → Bool
is_user name (user u) = str_eq u name
is_user name _ = false

-- `unwrap_or`
abbrev pub perms_or : Option AclPerms → AclPerms → AclPerms
perms_or none d = d
perms_or (some p) d = p

unfoldable pub acl_mask : List AclEntry → AclPerms
acl_mask acl = perms_or (find_perms acl is_mask) all_perms

unfoldable pub acl_named_user : List AclEntry → Text → Option AclPerms
acl_named_user acl name = find_perms acl (is_user name)

unfoldable pub effective_mode : InodeRecord → Principal → Effective
effective_mode rec principal =
    if principal.uid == rec.uid
    then record { access = mode_triple rec.mode 6; via = owner }
    else (elim (group_name_for_gid principal rec.gid) [
      | some name ↦ record { access = mode_triple rec.mode 3; via = group_bits name }
      | none ↦ record { access = mode_triple rec.mode 0; via = other_bits }
    ])

-- The owning group, when the principal is in it and the ACL has its entry.
abbrev pub owning_entry : Option Text → Option AclPerms → List (AccessVia × AclPerms)
owning_entry (some name) (some perms) = (group_bits name, perms) ∷ []
owning_entry _ _ = []

abbrev pub named_entry : Principal → AclTag → AclPerms → List (AccessVia × AclPerms)
named_entry principal (group name) perms =
    if in_named_group principal name then (acl_group name, perms) ∷ [] else []
named_entry principal _ perms = []

-- The loop over the entries of named groups.
unfoldable pub named_entries : Principal → List AclEntry → List (AccessVia × AclPerms)
named_entries principal [] = []
named_entries principal (e ∷ acl) =
    named_entry principal e.tag e.perms ++ named_entries principal acl

-- `applying`
unfoldable pub applying : InodeRecord → List AclEntry → Principal → List (AccessVia × AclPerms)
applying rec acl principal =
    owning_entry (group_name_for_gid principal rec.gid) (find_perms acl is_group_obj)
    ++ named_entries principal acl

-- The loop over the applying entries.
unfoldable pub credit :
    AclPerms → List (AccessVia × AclPerms) → AclPerms → AccessVia → Bool → Effective
credit limit [] access chosen_via granting_chosen = record { access = access; via = chosen_via }
credit limit ((via, perms) ∷ rest) access chosen_via granting_chosen =
    let now = masked perms limit in
    let grants = some_perm now && not granting_chosen in
    credit limit rest (join access now) (if grants then via else chosen_via)
      (granting_chosen || grants)

-- The third and fourth classes.
unfoldable pub group_or_other :
    InodeRecord → List AclEntry → List (AccessVia × AclPerms) → Effective
group_or_other rec acl [] = record {
  access = perms_or (find_perms acl is_other) (mode_triple rec.mode 0);
  via = other_bits;
}
group_or_other rec acl ((first_via, perms) ∷ rest) =
    credit (acl_mask acl) ((first_via, perms) ∷ rest) no_perms first_via false

-- The second class, or what comes after it.
abbrev pub by_named_user : InodeRecord → List AclEntry → Principal → Option AclPerms → Effective
by_named_user rec acl principal (some perms) = record {
  access = masked perms (acl_mask acl);
  via = acl_user principal.name;
}
by_named_user rec acl principal none = group_or_other rec acl (applying rec acl principal)

unfoldable pub effective_acl : InodeRecord → List AclEntry → Principal → Effective
effective_acl rec acl principal =
    if principal.uid == rec.uid
    then (record {
      access = perms_or (find_perms acl is_user_obj) (mode_triple rec.mode 6);
      via = owner;
    })
    else by_named_user rec acl principal (acl_named_user acl principal.name)

abbrev pub by_acl : InodeRecord → Principal → Option (List AclEntry) → Effective
by_acl rec principal none = effective_mode rec principal
by_acl rec principal (some acl) =
    if is_extended acl then effective_acl rec acl principal else effective_mode rec principal

unfoldable pub effective : InodeRecord → Principal → Effective
effective rec principal =
    if principal.uid == 0
    then record { access = all_perms; via = owner }
    else by_acl rec principal rec.acl
