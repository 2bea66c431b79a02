-- ===== src/Sudoers.antt =====
-- The sudoers fragments of src/sudoers.rs: their names, and the text that is written into them.
pub mod Commands
pub mod Fragment
pub mod Atomic
use census.Prelude.{
  ◌≡◌, ℕ, Bool, true, false, Option, none, some, List, [], ◌∷◌, ◌++◌, Text, codes, map, join,
  is_empty, if◌then◌else◌, ◌==◌, ◌||◌, ◌&&◌, leb, eq_ord, nat_ord, list_ord, option_ord, ◌+◌, ◌-◌,
}
use census.Model.{SudoCommand, ResolvedAccount, ResolvedGroup}

unfoldable pub sudoers_filename : Text → Text
sudoers_filename role = codes "census-" ++ role

unfoldable pub sudoers_group_filename : Text → Text
sudoers_group_filename group = codes "census-grp-" ++ group

unfoldable pub sudoers_group_path : Text → Text → Text
unfolding sudoers_group_filename
sudoers_group_path dir group = join dir (sudoers_group_filename group)

-- The characters that sudoers gives a meaning.
unfoldable pub is_special : ℕ → Bool
is_special ch =
    (ch == b',')
    || ((ch == b':')
        || ((ch == b'=')
            || ((ch == b'\\')
                || ((ch == b'(') || ((ch == b')') || ((ch == b'!') || (ch == b'#')))))))

unfoldable pub escape_sudoers_command : Text → Text
unfolding is_special
escape_sudoers_command [] = []
escape_sudoers_command (ch ∷ cmd) =
    if is_special ch
    then b'\\' ∷ ch ∷ escape_sudoers_command cmd
    else ch ∷ escape_sudoers_command cmd

-- `join` of a list of texts
unfoldable pub join_texts : Text → List Text → Text
join_texts sep [] = []
join_texts sep (w ∷ []) = w
join_texts sep (w ∷ v ∷ ws) = w ++ (sep ++ join_texts sep (v ∷ ws))

-- Commands of one runas, escaped.
abbrev pub RunasGroup : Type 0
RunasGroup = Option Text × List Text

abbrev pub same_runas : Option Text → Option Text → Bool
same_runas r s = eq_ord r s

-- One round of the loop: the first group of the runas gets the command, or a new group does.
unfoldable pub push_command : Option Text → Text → List RunasGroup → List RunasGroup
push_command runas escaped [] = (runas, escaped ∷ []) ∷ []
push_command runas escaped ((r, cmds) ∷ groups) =
    if same_runas r runas
    then (r, cmds ++ (escaped ∷ [])) ∷ groups
    else (r, cmds) ∷ push_command runas escaped groups

unfoldable pub group_commands : List SudoCommand → List RunasGroup → List RunasGroup
unfolding push_command
group_commands [] groups = groups
group_commands (cmd ∷ commands) groups =
    group_commands commands (push_command cmd.runas (escape_sudoers_command cmd.command) groups)

abbrev pub runas_spec : Option Text → Text
runas_spec none = codes "ALL"
runas_spec (some u) = escape_sudoers_command u

unfoldable pub render_group : RunasGroup → Text
render_group (runas, cmds) =
    (b'(' ∷ runas_spec runas) ++ (codes ") NOPASSWD: " ++ join_texts (codes ", ") cmds)

unfoldable pub render_runspec : List SudoCommand → Text
unfolding group_commands render_group
render_runspec commands = join_texts (codes ", ") (map render_group (group_commands commands []))

unfoldable pub is_ascii_alphanumeric : ℕ → Bool
is_ascii_alphanumeric ch =
    (leb b'a' ch && leb ch b'z') || ((leb b'A' ch && leb ch b'Z') || (leb b'0' ch && leb ch b'9'))

unfoldable pub to_ascii_uppercase : ℕ → ℕ
to_ascii_uppercase ch = if leb b'a' ch && leb ch b'z' then ch - 32 else ch

unfoldable pub sudo_role_alias : Text → Text
unfolding is_ascii_alphanumeric to_ascii_uppercase
sudo_role_alias sudo_role =
    codes "CENSUS_"
    ++ map (λ ch. if is_ascii_alphanumeric ch then to_ascii_uppercase ch else b'_') sudo_role

abbrev pub role_content : Text → Option Text → Option Text
role_content name none = none
role_content name (some sudo_role) = some (
    codes "# Managed by Census — role "
    ++ (name
        ++ (codes ". Do not edit by hand.\n# Command set is the site-provisioned Cmnd_Alias "
            ++ (sudo_role_alias sudo_role
                ++ (codes ".\n"
                    ++ (name
                        ++ (codes " ALL=(ALL) " ++ (sudo_role_alias sudo_role ++ codes "\n"))))))))

abbrev commands_note : Text
commands_note =
    codes
      ". Do not edit by hand.\n# Concrete commands expanded from the role's permissions.\n# NOPASSWD: role accounts have locked passwords (no password to prompt).\n"

unfoldable pub build_account_sudoers_from_parts :
    Text → List SudoCommand → Option Text → Option Text
build_account_sudoers_from_parts name sudo_commands sudo_role =
    if is_empty sudo_commands
    then role_content name sudo_role
    else some (
        codes "# Managed by Census — role "
        ++ (name
            ++ (commands_note
                ++ (name ++ (codes " ALL=" ++ (render_runspec sudo_commands ++ codes "\n"))))))

unfoldable pub build_sudoers_content : ResolvedAccount → Option Text
unfolding build_account_sudoers_from_parts
build_sudoers_content acct =
    build_account_sudoers_from_parts acct.name acct.sudo_commands acct.sudo_role

abbrev group_note : Text
group_note =
    codes
      ". Do not edit by hand.\n# Concrete commands expanded from the bound roles' permissions.\n# Subject is the Unix group (%): every effective member inherits the rule,\n# including LDAP nested-group members resolved behind the group name.\n# NOPASSWD: a managed group sudo grant is not an interactive re-auth point.\n%"

unfoldable pub build_group_sudoers_from_parts : Text → List SudoCommand → Option Text
build_group_sudoers_from_parts name sudo_commands =
    if is_empty sudo_commands
    then none
    else some (
        codes "# Managed by Census — group "
        ++ (name
            ++ (group_note
                ++ (name ++ (codes " ALL=" ++ (render_runspec sudo_commands ++ codes "\n"))))))

unfoldable pub build_group_sudoers_content : ResolvedGroup → Option Text
unfolding build_group_sudoers_from_parts
build_group_sudoers_content group = build_group_sudoers_from_parts group.name group.sudo_commands
