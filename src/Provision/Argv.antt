-- ===== src/Provision/Argv.antt =====
-- The argument vectors of src/mutate.rs: one list of texts for each command, in the order in which
-- they run.
use census.Prelude.{
  option_ord, nat_ord, list_ord, ◌==◌, str_eq, not, eq_list, ◌∷◌, if◌then◌else◌, [], ◌++◌, Text,
  List, ℕ, ok, err, Result, Option, none, some, codes, print_u32, sort,
}
use census.Model.{ResolvedAccount}
use census.State.{ManagedAccount}
use census.Provision.{ProvisionError, uid_change}
use census.Sudoers.{join_texts}

abbrev pub gecos_marker_prefix : Text
gecos_marker_prefix = codes "census-role-"

unfoldable pub gecos_marker : Text → Text
gecos_marker role = gecos_marker_prefix ++ role

abbrev pub group_flag : List Text → List Text
group_flag [] = []
group_flag (g ∷ groups) = codes "-G" ∷ join_texts (codes ",") (g ∷ groups) ∷ []

unfoldable pub build_create_argv : ResolvedAccount → List (List Text)
unfolding gecos_marker
build_create_argv acct =
    ((codes "useradd"
        ∷ codes "-u"
        ∷ print_u32 acct.uid
        ∷ codes "-m"
        ∷ codes "-d"
        ∷ acct.home
        ∷ codes "-s"
        ∷ acct.shell
        ∷ [])
      ++ (group_flag acct.groups ++ (acct.name ∷ [])))
    ∷ (codes "chfn" ∷ codes "-f" ∷ gecos_marker acct.name ∷ acct.name ∷ [])
    ∷ (codes "passwd" ∷ codes "-l" ∷ acct.name ∷ [])
    ∷ []

abbrev pub shell_command : ResolvedAccount → ManagedAccount → List (List Text)
shell_command acct current =
    if str_eq acct.shell current.shell
    then []
    else (codes "usermod" ∷ codes "-s" ∷ acct.shell ∷ acct.name ∷ []) ∷ []

abbrev pub groups_command : ResolvedAccount → ManagedAccount → List (List Text)
groups_command acct current =
    if eq_list (sort acct.groups) (sort current.groups)
    then []
    else (codes "usermod" ∷ codes "-G" ∷ join_texts (codes ",") acct.groups ∷ acct.name ∷ []) ∷ []

unfoldable pub build_update_argv :
    ResolvedAccount → ManagedAccount → Result ProvisionError (List (List Text))
build_update_argv acct current =
    if not (acct.uid == current.uid)
    then err (uid_change acct.name current.uid acct.uid)
    else ok (shell_command acct current ++ groups_command acct current)

unfoldable pub build_delete_argv : Text → List (List Text)
build_delete_argv name = (codes "userdel" ∷ codes "-r" ∷ name ∷ []) ∷ []

abbrev pub gid_flag : Option ℕ → List Text
gid_flag none = []
gid_flag (some g) = codes "-g" ∷ print_u32 g ∷ []

unfoldable pub build_create_group_argv : Text → Option ℕ → List (List Text)
build_create_group_argv name gid = (codes "groupadd" ∷ gid_flag gid ++ (name ∷ [])) ∷ []

unfoldable pub build_delete_group_argv : Text → List (List Text)
build_delete_group_argv name = (codes "groupdel" ∷ name ∷ []) ∷ []

unfoldable pub build_gpasswd_add_argv : Text → Text → List (List Text)
build_gpasswd_add_argv group member = (codes "gpasswd" ∷ codes "-a" ∷ member ∷ group ∷ []) ∷ []

unfoldable pub build_gpasswd_del_argv : Text → Text → List (List Text)
build_gpasswd_del_argv group member = (codes "gpasswd" ∷ codes "-d" ∷ member ∷ group ∷ []) ∷ []
