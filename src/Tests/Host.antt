-- ===== src/Tests/Host.antt =====
-- A small host that src/apply.rs can run on: a counter for the auth database, a number at each path,
-- and the last snapshot of both.
use census.Prelude.{
  path_eq_trans, ◌∙◌, none, ◌∷◌, sym, path_eq_iff, codes, any, Bool-eq_of_iff, ◌≡◌, ℕ,
  if◌then◌else◌, ap, [], Bool, ◌+◌, Text, List, ok, err, Result, refl, path_eq, true,
}
use census.Apply.Seams.{Seam, Touches, LawfulProvisioner, LawfulBackend}
use census.FileAccess.{acl_capabilities, FileAccessBackend}
use census.Provision.{command_failed, Provisioner}
use census.Apply.Touched.{fragment_path, grant_paths}
use census.Sudoers.{sudoers_group_path}

pub record Store : Type 0 where
  pub auth : ℕ
  pub at : Text → ℕ
  pub tracked : List Text
  pub saved_auth : ℕ
  pub saved_at : Text → ℕ
  pub saved_paths : List Text

abbrev reached : List Text → Text → Bool
reached ps q = any (λ p. path_eq p q) ps

abbrev pub provisioning : Seam Store ℕ ℕ
provisioning = record {
  base = λ s. s.auth;
  view = λ s. s.at;
  reach = path_eq;
  holds = λ a v ps s. (s.saved_auth ≡ a) × (s.saved_at ≡ v) × (s.saved_paths ≡ ps);
}

abbrev pub accesses : Seam Store (Unit {0}) ℕ
accesses = record {
  base = λ s. tt;
  view = λ s. s.at;
  reach = path_eq;
  holds = λ a v ps s. (s.saved_at ≡ v) × (s.saved_paths ≡ ps);
}

abbrev count_up : Store → Store
count_up s = record s { auth = 1 + s.auth }

abbrev write_at : List Text → Store → Store
write_at ps s = record s { at = λ q. if reached ps q then 1 + s.at q else s.at q }

abbrev save : List Text → Store → Store
save ps s = record s { saved_auth = s.auth; saved_at = s.at; saved_paths = ps }

abbrev bring_back : Store → Store
bring_back s = record s {
  auth = s.saved_auth;
  at = λ q. if reached s.saved_paths q then s.saved_at q else s.at q;
}

abbrev succeed : {E : Type 0} → (Store → Store) → Store → Result E (Unit {0}) × Store
succeed f s = (ok tt, f s)

-- `userdel` fails on this host.
abbrev pub small_tools : Text → Provisioner Store
small_tools sudoers_dir = record {
  create = λ acct. succeed count_up;
  update = λ acct changes. succeed count_up;
  delete = λ name s. (err (command_failed (codes "userdel" ∷ []) (codes "1") []), count_up s);
  create_group = λ name gid. succeed count_up;
  group_gid = λ name s. none;
  delete_group = λ name. succeed count_up;
  apply_sudoers = λ acct. succeed (write_at (fragment_path sudoers_dir acct.name ∷ []));
  remove_sudoers = λ name. succeed (write_at (fragment_path sudoers_dir name ∷ []));
  apply_group_sudoers = λ g. succeed (write_at (sudoers_group_path sudoers_dir g.name ∷ []));
  remove_group_sudoers = λ name. succeed (write_at (sudoers_group_path sudoers_dir name ∷ []));
  add_group_member = λ name m. succeed count_up;
  remove_group_member = λ name m. succeed count_up;
  track_sudoers_backup = λ path s. record s { tracked = path ∷ s.tracked };
  snapshot = λ s. (ok tt, save s.tracked s);
  restore = succeed bring_back;
}

abbrev pub acl_tool : FileAccessBackend Store
acl_tool = record {
  capabilities = acl_capabilities;
  materialize = λ principal grants. succeed (write_at (grant_paths grants));
  revoke = λ principal grant. succeed (write_at (grant.path ∷ []));
  snapshot = λ paths. succeed (save paths);
  restore = succeed bring_back;
}

count_up-Touches : (ps : List Text) (s : Store) → Touches provisioning ps s (count_up s)
count_up-Touches ps s = record { keeps_snapshot = λ a v saved h. h; keeps_rest = λ q n. refl }

write_at-Touches : (ps : List Text) (s : Store) → Touches provisioning ps s (write_at ps s)
write_at-Touches ps s = record { keeps_snapshot = λ a v saved h. h; keeps_rest = λ q n. rw n refl }

write_at-Touches_acl : (ps : List Text) (s : Store) → Touches accesses ps s (write_at ps s)
write_at-Touches_acl ps s = record {
  keeps_snapshot = λ a v saved h. h;
  keeps_rest = λ q n. rw n refl;
}

pub small_tools-LawfulProvisioner :
    (sudoers_dir : Text) → LawfulProvisioner provisioning sudoers_dir (small_tools sudoers_dir)
small_tools-LawfulProvisioner sudoers_dir = record {
  tracked = λ s. s.tracked;
  create_lem = λ acct s. count_up-Touches [] s;
  update_lem = λ acct changes s. count_up-Touches [] s;
  delete_lem = λ name s. count_up-Touches [] s;
  create_group_lem = λ name gid s. count_up-Touches [] s;
  delete_group_lem = λ name s. count_up-Touches [] s;
  add_member_lem = λ name m s. count_up-Touches [] s;
  remove_member_lem = λ name m s. count_up-Touches [] s;
  apply_sudoers_lem = λ acct s. write_at-Touches _ s;
  remove_sudoers_lem = λ name s. write_at-Touches _ s;
  apply_group_sudoers_lem = λ g s. write_at-Touches _ s;
  remove_group_sudoers_lem = λ name s. write_at-Touches _ s;
  track_same = λ path s. record { same_base = refl; same_view = λ q. refl };
  track_more = λ path s q h. h;
  snapshot_same = λ s. record { same_base = refl; same_view = λ q. refl };
  snapshot_holds = λ s h. (refl, refl, refl);
  restore_lem = λ a v saved s h e. record {
    base_back = h.0;
    view_back = λ q c. rw (h.2, c) (ap (λ w. w q) h.1);
    rest_kept = λ q c. rw (h.2, c) refl;
  };
}

pub acl_tool-LawfulBackend : LawfulBackend accesses acl_tool
acl_tool-LawfulBackend = record {
  materialize_lem = λ principal grants s. write_at-Touches_acl _ s;
  revoke_lem = λ principal grant s. write_at-Touches_acl _ s;
  snapshot_same = λ paths s. record { same_base = refl; same_view = λ q. refl };
  snapshot_holds = λ paths s h. (refl, refl);
  restore_lem = λ v saved s h e. record {
    base_back = refl;
    view_back = λ q c. rw (h.1, c) (ap (λ w. w q) h.0);
    rest_kept = λ q c. rw (h.1, c) refl;
  };
}

pub path_eq-respects : (p r q : Text) → path_eq p r ≡ true → path_eq p q ≡ path_eq r q
path_eq-respects p r q h =
    Bool-eq_of_iff (path_eq p q) (path_eq r q)
      (λ e. (path_eq_iff r q).1 (sym ((path_eq_iff p r).0 h) ∙ (path_eq_iff p q).0 e))
      (λ e. path_eq_trans p r q h e)
