-- ===== src/Exposure/Acl.antt =====
-- ACL entries and their text form (src/exposure/acl.rs).
pub mod Parse
use census.Prelude.{[], ◌∷◌, if◌then◌else◌, any, ◌||◌, true, false, Text, List, Bool, ◌&&◌}

pub record AclPerms : Type 0 where
  pub read : Bool
  pub write : Bool
  pub execute : Bool

-- `AclPerms::ALL`
abbrev pub all_perms : AclPerms
all_perms = record { read = true; write = true; execute = true }

-- `AclPerms::default()`
abbrev pub no_perms : AclPerms
no_perms = record { read = false; write = false; execute = false }

unfoldable pub rwx : AclPerms → Text
rwx p =
    (if p.read then b'r' else b'-')
    ∷ (if p.write then b'w' else b'-')
    ∷ (if p.execute then b'x' else b'-')
    ∷ []

unfoldable pub masked : AclPerms → AclPerms → AclPerms
masked p mask = record {
  read = p.read && mask.read;
  write = p.write && mask.write;
  execute = p.execute && mask.execute;
}

-- `AclPerms::union`
unfoldable pub join : AclPerms → AclPerms → AclPerms
join p other = record {
  read = p.read || other.read;
  write = p.write || other.write;
  execute = p.execute || other.execute;
}

-- `AclPerms::any`
unfoldable pub some_perm : AclPerms → Bool
some_perm p = p.read || (p.write || p.execute)

pub data AclTag : Type 0 where
  user_obj : AclTag
  user : Text → AclTag
  group_obj : AclTag
  group : Text → AclTag
  mask other : AclTag

pub record AclEntry : Type 0 where
  pub tag : AclTag
  pub perms : AclPerms

-- `matches!(tag, User(_) | Group(_) | Mask)`
unfoldable pub extends : AclTag → Bool
extends (user u) = true
extends (group g) = true
extends mask = true
extends _ = false

-- `AclEntries::is_extended`
unfoldable pub is_extended : List AclEntry → Bool
is_extended entries = any (λ e. extends e.tag) entries
