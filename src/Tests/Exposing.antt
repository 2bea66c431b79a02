-- ===== src/Tests/Exposing.antt =====
-- Access and reachability, run on two directories and a file.
use census.Prelude.Map
use census.Exposure.Acl.{
  some_perm, join, masked, other, mask, group, no_perms, group_obj, all_perms, user_obj, extends,
  is_extended, AclEntry, AclTag, AclPerms,
}
use census.Exposure.Access.{
  other_bits, mode_triple, acl_group, in_named_group, acl_mask, credit, group_or_other,
  named_entries, applying, find_perms, acl_named_user, group_name_for_gid, effective_mode,
  effective_acl, effective, Principal, InodeRecord,
}
use census.Exposure.Reach.Climb.{reachable_dir-Right, Right, IsSound}
use census.Prelude.{
  refl, arith, ◌↔◌, str_eq, ◌≡◌, true, some, none, if◌then◌else◌, [], ◌∷◌, false, codes, Option,
  Text, List,
}
use census.Exposure.Reach.{
  within_scope, has_search, before_last, parent_dir, reachable_dir, collect_reachable, is_reachable,
  compute, PermissionIndex,
}
use census.Exposure.Access.Via.{effective_acl-ViaFits, ViaFits}
use census.Exposure.Access.Granted.{effective_acl-access_iff, AclGrants}
use census.Exposure.Access.Bits.{write_bit, has}
use census.Tests.Fixtures.{ops}
use census.Exposure.Reach.Computed.{compute-Reached_iff, Reached}
use census.Catalog.Paths.{starts_with_slash, trim_slash, path_at_or_under}
use census.Exposure.Mounts.Printed.{MountEntry}
use census.Exposure.Mounts.Table.{
  skip_fstype-print, print_mounts, IsPrinted, skipped_at, ends_plain,
}
use census.Exposure.Mounts.{is_skip_fstype, from_mountinfo, skip_fstype}
use census.Exposure.Mounts.Escapes.{is_field}

abbrev ann : Principal
ann = record {
  name = codes "ann";
  uid = 3001;
  groups = (record { name = ops; gid = 500 }) ∷ [];
  home = none;
}

abbrev only_execute : AclPerms
only_execute = record { read = false; write = false; execute = true }

abbrev entry : AclTag → AclPerms → AclEntry
entry tag perms = record { tag = tag; perms = perms }

-- The group `ops` has everything, within a mask of execute.
abbrev shared : List AclEntry
shared =
    entry user_obj all_perms
    ∷ entry group_obj no_perms
    ∷ entry (group ops) all_perms
    ∷ entry mask only_execute
    ∷ entry other all_perms
    ∷ []

abbrev etc_dir : InodeRecord
etc_dir = record { path = codes "/etc"; uid = 0; gid = 0; mode = 0o755; acl = none }

abbrev etc_team : InodeRecord
etc_team = record { path = codes "/etc/team"; uid = 0; gid = 0; mode = 0o750; acl = some shared }

abbrev etc_file : InodeRecord
etc_file = record { path = codes "/etc/team/f"; uid = 0; gid = 0; mode = 0o600; acl = none }

abbrev look : Text → Option InodeRecord
look path =
    if str_eq path etc_dir.path
    then some etc_dir
    else if str_eq path etc_team.path
    then some etc_team
    else none

abbrev index : PermissionIndex
index = record { records = etc_dir ∷ etc_team ∷ etc_file ∷ []; get = look }

effective_test : effective etc_team ann ≡ record { access = only_execute; via = acl_group ops }
unfolding effective is_extended extends effective_acl acl_named_user find_perms applying
    named_entries group_or_other credit masked join some_perm acl_mask group_name_for_gid
    in_named_group str_eq
effective_test = refl

mode_test : effective etc_dir ann ≡ record { access = mode_triple 0o755 0; via = other_bits }
unfolding effective effective_mode group_name_for_gid
mode_test = refl

reach_test :
    compute index ann (codes "/etc" ∷ [])
    ≡ codes "/etc" ∷ codes "/etc/team" ∷ codes "/etc/team/f" ∷ []
unfolding compute collect_reachable reachable_dir parent_dir before_last has_search within_scope
    path_at_or_under trim_slash starts_with_slash effective effective_mode mode_triple is_extended
    extends effective_acl acl_named_user find_perms applying named_entries group_or_other credit
    masked join some_perm acl_mask group_name_for_gid in_named_group str_eq Map.get
reach_test = refl

effective_acl-access_iff_example :
    (has write_bit (effective_acl etc_team shared ann).access ≡ true)
    ↔ AclGrants etc_team shared ann write_bit
effective_acl-access_iff_example = effective_acl-access_iff etc_team shared ann write_bit

effective_acl-ViaFits_example : ViaFits etc_team shared ann (effective_acl etc_team shared ann)
effective_acl-ViaFits_example = effective_acl-ViaFits etc_team shared ann

compute-Reached_iff_example :
    (is_reachable (compute index ann (codes "/etc" ∷ [])) (codes "/etc/team") ≡ true)
    ↔ Reached index ann (codes "/etc" ∷ []) index.records (codes "/etc/team")
compute-Reached_iff_example =
    compute-Reached_iff index ann (codes "/etc" ∷ []) (codes "/etc/team") refl

empty-IsSound : IsSound index ann (codes "/etc" ∷ []) []
unfolding Map.get
empty-IsSound k v h = absurd (cc h)

reachable_dir-Right_example :
    Right index ann
      (codes "/etc" ∷ [])
      (codes "/etc/team")
      (reachable_dir 10 (codes "/etc/team") index ann (codes "/etc" ∷ []) [])
reachable_dir-Right_example =
    reachable_dir-Right index ann (codes "/etc" ∷ []) 10 (codes "/etc/team") [] (omega arith)
      empty-IsSound

abbrev mount : Text → Text → MountEntry
mount mount_point fstype = record {
  mount_id = codes "36";
  parent_id = codes "25";
  major_minor = codes "0:34";
  root = codes "/";
  mount_point = mount_point;
  fields = codes "rw" ∷ codes "shared:1" ∷ [];
  fstype = fstype;
  source = codes "none";
  super_options = codes "rw";
}

abbrev mounts : List MountEntry
mounts = mount (codes "/mnt/my share") (codes "nfs4") ∷ mount (codes "/") (codes "ext4") ∷ []

mount-IsPrinted : (p t : Text) → is_field t ≡ true → IsPrinted (mount p t)
unfolding ends_plain str_eq
mount-IsPrinted p t h = (
  record {
    first = refl;
    heads = (refl, (refl, (refl, tt)));
    fields = ((refl, refl), ((refl, refl), tt));
    lasts = (h, (refl, (refl, tt)));
  },
  refl,
)

skip_fstype-print_example :
    skip_fstype (codes "/mnt/my share") (from_mountinfo (print_mounts mounts))
    ≡ skipped_at (codes "/mnt/my share") mounts
skip_fstype-print_example =
    skip_fstype-print (codes "/mnt/my share") mounts
      (mount-IsPrinted _ _ refl, (mount-IsPrinted _ _ refl, tt))

share_test : skipped_at (codes "/mnt/my share") mounts ≡ some (codes "nfs4")
unfolding skipped_at str_eq is_skip_fstype
share_test = refl

-- A local file system over an automount point does not take its entry out of the table.
automount_test :
    skipped_at
      (codes "/boot")
      (mount (codes "/boot") (codes "autofs") ∷ mount (codes "/boot") (codes "ext4") ∷ [])
    ≡ some (codes "autofs")
unfolding skipped_at str_eq is_skip_fstype
automount_test = refl
