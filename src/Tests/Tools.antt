-- ===== src/Tests/Tools.antt =====
-- The commands and fragments of src/fileaccess.rs, src/sudoers.rs and src/mutate.rs, on small
-- systems.
use census.Prelude.{
  false, ◌==◌, any, segments, components, ◌↔◌, parent_and_name, inr, arith, sym, ◌∷◌, inl,
  str_eq_iff, map, Bool-cases, ◌+◌, ◌≢◌, ◌≡◌, ◌∙◌, join, if◌then◌else◌, [], Text, ℕ, ok, err,
  Option, some, none, refl, codes, str_eq,
}
use census.Sudoers.Fragment.{
  accepted, visudo_rejected, already_exists, rejected, opened, temp_path, removed, VisudoOutcome,
  OpenOutcome, FragmentSystem, write_fragment,
}
use census.Sudoers.Atomic.{LawfulFiles, Replaced, write_fragment-Replaced}
use census.Sudoers.Commands.{newline, push_char, is_reserved, OneLine, read_commands, read-rendered}
use census.FileAccess.Routing.{Routed, route_grants-ok_iff}
use census.FileAccess.Gated.{Supported, gated-Supported}
use census.FileAccess.Acl.{
  setfacl_args, run_setfacl, resolve_grant_path, present, materialize_one, materialize_all,
  acl_backend, AclState, AclSystem, AclBackend,
}
use census.Sudoers.{escape_sudoers_command, join_texts}
use census.FileAccess.{acl_capabilities, shape_requires, user, choose, route_grants}
use census.Tests.Fixtures.{ops, etc_app}

-- A file system as a function, and a `visudo` that accepts what is not empty.
abbrev pub Files : Type 0
Files = Text → Option Text

abbrev pub set : Text → Option Text → Files → Files
set p c s q = if str_eq p q then c else s q

abbrev verdict : Option Text → VisudoOutcome
verdict none = rejected (codes "no file")
verdict (some []) = rejected (codes "empty")
verdict (some (c ∷ s)) = accepted

abbrev pub open_of : Option Text → OpenOutcome
open_of none = opened
open_of (some c) = already_exists

abbrev pub kept_or_empty : Option Text → Option Text
kept_or_empty none = some []
kept_or_empty (some c) = some c

abbrev small_files : FragmentSystem Files
small_files = record {
  open_excl = λ p s. (open_of (s p), set p (kept_or_empty (s p)) s);
  write_all = λ p c s. (ok tt, set p (some c) s);
  set_mode_0440 = λ p s. (ok tt, s);
  visudo = λ p s. (verdict (s p), s);
  rename = λ p d s. (ok tt, set d (s p) (set p none s));
  remove_file = λ p s. (removed, set p none s);
}

pub set-same : (p : Text) (c : Option Text) (s : Files) → set p c s p ≡ c
set-same p c s = rw ((str_eq_iff p p).1 refl) refl

pub set-other : (p : Text) (c : Option Text) (s : Files) (q : Text) → q ≢ p → set p c s q ≡ s q
set-other p c s q n = elim (Bool-cases (str_eq p q)) [
  | inl e ↦ absurd (n (sym ((str_eq_iff p q).0 e)))
  | inr e ↦ rw e refl
]

small_files-LawfulFiles : LawfulFiles small_files
small_files-LawfulFiles = record {
  file = λ s. s;
  open_lem = λ p s q n. set-other p (kept_or_empty (s p)) s q n;
  write_lem = λ p c s q n. set-other p (some c) s q n;
  write_all_lem = λ p c s e. set-same p (some c) s;
  mode_lem = λ p s q. refl;
  visudo_lem = λ p s q. refl;
  rename_lem = λ p d s e. set-same d (s p) (set p none s);
  rename_rest = λ p d s q n m. set-other d (s p) (set p none s) q m ∙ set-other p none s q n;
  rename_failed = λ p d s e q h. absurd (cc h);
  remove_lem = λ p s q n. set-other p none s q n;
}

abbrev pub no_files : Files
no_files q = none

abbrev fragment_name : Text
fragment_name = codes "census-ops"

abbrev sudoers_d : Text
sudoers_d = codes "/etc/sudoers.d"

write_fragment-Replaced_example :
    Replaced small_files small_files-LawfulFiles
      (temp_path small_files sudoers_d fragment_name)
      (join sudoers_d fragment_name)
      (codes "ops ALL=x")
      no_files
      (write_fragment small_files sudoers_d fragment_name (codes "ops ALL=x") ops no_files)
write_fragment-Replaced_example =
    write_fragment-Replaced small_files small_files-LawfulFiles sudoers_d fragment_name
      (codes "ops ALL=x") ops no_files

rejected_test :
    (write_fragment small_files sudoers_d fragment_name [] ops no_files).0
    ≡ err (visudo_rejected ops (codes "empty"))
unfolding write_fragment join str_eq
rejected_test = refl

abbrev hostile : Text
hostile = codes "/bin/ls a, !(b): #c=\\"

hostile-OneLine : OneLine hostile
hostile-OneLine = one_line hostile refl
  where
    one_line : (w : Text) → any (λ c. c == newline) w ≡ false → OneLine w
    one_line [] h = tt
    one_line (c ∷ w) h = (ground (arith, h), one_line w (ground (arith, h)))

read-rendered_example :
    read_commands (join_texts (codes ", ") (map escape_sudoers_command (hostile ∷ hostile ∷ [])))
    ≡ some (hostile ∷ hostile ∷ [])
read-rendered_example =
    read-rendered hostile (hostile ∷ []) (hostile-OneLine, (hostile-OneLine, tt))

-- Without its escape the same command is no command.
bare_test : read_commands hostile ≡ none
unfolding read_commands is_reserved push_char
bare_test = refl

route_grants-ok_iff_example :
    (route_grants (etc_app ∷ []) (acl_capabilities ∷ []) ≡ ok ((0, etc_app) ∷ []))
    ↔ Routed (acl_capabilities ∷ []) (etc_app ∷ []) ((0, etc_app) ∷ [])
route_grants-ok_iff_example =
    route_grants-ok_iff (acl_capabilities ∷ []) (etc_app ∷ []) ((0, etc_app) ∷ [])

abbrev quiet_system : AclSystem ℕ
quiet_system = record {
  run = λ bin args s. (ok [], 1 + s);
  canonicalize = λ path s. ok path;
  symlink_metadata = λ path s. present;
  create_dir_all = λ path s. (ok tt, s);
  write_file = λ path bytes s. (ok tt, s);
}

abbrev on_path : AclBackend
on_path = record {
  setfacl_bin = codes "setfacl";
  getfacl_bin = codes "getfacl";
  rollback_dir = codes "/var/lib/census";
}

abbrev untouched : AclState ℕ
untouched = record { system = 0; last_snapshot = none }

etc_app-routed : route_grants (etc_app ∷ []) (acl_capabilities ∷ []) ≡ ok ((0, etc_app) ∷ [])
unfolding route_grants choose shape_requires acl_capabilities
etc_app-routed = refl

gated-Supported_example :
    Supported ((acl_backend quiet_system on_path).materialize (user ops) (etc_app ∷ []) untouched).0
gated-Supported_example =
    gated-Supported quiet_system on_path (user ops) (etc_app ∷ []) ((0, etc_app) ∷ []) untouched
      etc_app-routed

-- Each grant takes two commands.
two_commands_test :
    ((acl_backend quiet_system on_path).materialize (user ops) (etc_app ∷ []) untouched).1.system
    ≡ 2
unfolding acl_backend materialize_all materialize_one resolve_grant_path parent_and_name components
    segments run_setfacl setfacl_args str_eq
two_commands_test = refl
