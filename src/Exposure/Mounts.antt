-- ===== src/Exposure/Mounts.antt =====
-- The classification of mount points (src/exposure/mounts.rs). Reading /proc/self/mountinfo is I/O;
-- its text is an argument.
pub mod Escapes
pub mod Printed
pub mod Table
use census.Prelude.Map
use census.Prelude.{
  ◌||◌, ◌&&◌, str_eq, any, ◌==◌, ◌∷◌, some, none, if◌then◌else◌, [], Bool, ℕ, Text, Option, List,
  codes,
}
use census.Prelude.Map.{Map}

abbrev pub network_fstypes : List Text
network_fstypes =
    codes "nfs"
    ∷ codes "nfs4"
    ∷ codes "cifs"
    ∷ codes "smb3"
    ∷ codes "smbfs"
    ∷ codes "ncpfs"
    ∷ codes "afs"
    ∷ codes "9p"
    ∷ codes "ceph"
    ∷ codes "glusterfs"
    ∷ codes "lustre"
    ∷ codes "ocfs2"
    ∷ codes "fuse.sshfs"
    ∷ codes "sshfs"
    ∷ codes "fuse.davfs"
    ∷ codes "davfs"
    ∷ codes "fuse.glusterfs"
    ∷ codes "fuse.cephfs"
    ∷ codes "fuse.rclone"
    ∷ []

abbrev pub pseudo_fstypes : List Text
pseudo_fstypes =
    codes "proc"
    ∷ codes "sysfs"
    ∷ codes "devtmpfs"
    ∷ codes "devpts"
    ∷ codes "cgroup"
    ∷ codes "cgroup2"
    ∷ codes "bpf"
    ∷ codes "tracefs"
    ∷ codes "debugfs"
    ∷ codes "securityfs"
    ∷ codes "pstore"
    ∷ codes "mqueue"
    ∷ codes "hugetlbfs"
    ∷ codes "configfs"
    ∷ codes "fusectl"
    ∷ codes "binfmt_misc"
    ∷ codes "autofs"
    ∷ codes "rpc_pipefs"
    ∷ codes "nsfs"
    ∷ codes "efivarfs"
    ∷ []

unfoldable pub is_skip_fstype : Text → Bool
is_skip_fstype fstype =
    any (λ t. str_eq t fstype) network_fstypes || any (λ t. str_eq t fstype) pseudo_fstypes

-- The three characters after a backslash, the first of which is a `0` or a `1`.
unfoldable pub escape_of : ℕ → ℕ → ℕ → Option ℕ
escape_of a b c =
    if (a == b'0') && ((b == b'4') && (c == b'0'))
    then some b' '
    else if (a == b'0') && ((b == b'1') && (c == b'1'))
    then some b'\t'
    else if (a == b'0') && ((b == b'1') && (c == b'2'))
    then some b'\n'
    else if (a == b'1') && ((b == b'3') && (c == b'4'))
    then some b'\\'
    else none

abbrev pub decoded : Option ℕ → ℕ → ℕ → ℕ → Text → Text
decoded none a b c s = b'\\' ∷ a ∷ b ∷ c ∷ s
decoded (some x) a b c s = x ∷ s

-- What is no escape stays as it is; a short one at the end as well.
unfoldable pub unescape_mountinfo : Text → Text
unfolding escape_of
unescape_mountinfo [] = []
unescape_mountinfo (x ∷ []) = x ∷ []
unescape_mountinfo (x ∷ a ∷ []) = x ∷ a ∷ []
unescape_mountinfo (x ∷ a ∷ b ∷ []) = x ∷ a ∷ b ∷ []
unescape_mountinfo (x ∷ a ∷ b ∷ c ∷ s) =
    let rest = unescape_mountinfo (a ∷ b ∷ c ∷ s) in
    let after = unescape_mountinfo s in
    if (x == b'\\') && ((a == b'0') || (a == b'1'))
    then decoded (escape_of a b c) a b c after
    else x ∷ rest

unfoldable pub cons_first : ℕ → List Text → List Text
cons_first c [] = (c ∷ []) ∷ []
cons_first c (w ∷ ws) = (c ∷ w) ∷ ws

-- `split(' ')`
unfoldable pub split_spaces : Text → List Text
unfolding cons_first
split_spaces [] = [] ∷ []
split_spaces (c ∷ s) =
    let rest = split_spaces s in if c == b' ' then [] ∷ rest else cons_first c rest

-- `str::lines`: a line end is a newline, with a carriage return before it or not.
unfoldable pub lines : Text → List Text
unfolding cons_first
lines [] = []
lines (c ∷ []) = if c == b'\n' then [] ∷ [] else (c ∷ []) ∷ []
lines (c ∷ d ∷ s) =
    let rest = lines (d ∷ s) in
    if c == b'\n'
    then [] ∷ rest
    else if (c == b'\r') && (d == b'\n')
    then rest
    else cons_first c rest

-- The field after the separator.
unfoldable pub fstype_in : List Text → Option Text
fstype_in [] = none
fstype_in (t ∷ []) = none
fstype_in (t ∷ u ∷ ts) =
    let rest = fstype_in (u ∷ ts) in if str_eq t (codes "-") then some u else rest

abbrev pub at_point : Text → Option Text → Option (Text × Text)
at_point mount_point none = none
at_point mount_point (some fstype) = some (mount_point, fstype)

abbrev pub mount_fields : List Text → Option (Text × Text)
mount_fields (mount_id ∷ parent_id ∷ major_minor ∷ root ∷ mount_point ∷ ts) =
    at_point (unescape_mountinfo mount_point) (fstype_in ts)
mount_fields _ = none

unfoldable pub parse_mountinfo_line : Text → Option (Text × Text)
unfolding split_spaces fstype_in
parse_mountinfo_line line = mount_fields (split_spaces line)

-- `MountTable`: the skipped mount points with their types.
abbrev pub MountTable : Type 0
MountTable = Map Text

abbrev pub record_mount : Option (Text × Text) → MountTable → MountTable
record_mount none skip = skip
record_mount (some (mount_point, fstype)) skip =
    if is_skip_fstype fstype then Map.insert mount_point fstype skip else skip

abbrev pub record_lines : List Text → MountTable → MountTable
record_lines [] skip = skip
record_lines (line ∷ ls) skip = record_lines ls (record_mount (parse_mountinfo_line line) skip)

unfoldable pub from_mountinfo : Text → MountTable
unfolding lines
from_mountinfo text = record_lines (lines text) []

unfoldable pub skip_fstype : Text → MountTable → Option Text
skip_fstype path skip = Map.get path skip
