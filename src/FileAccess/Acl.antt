-- ===== src/FileAccess/Acl.antt =====
-- The open backend of src/fileaccess.rs, `AclBackend`: the commands that it builds and the order in
-- which it runs them. The commands and the file system are given by the caller.
use census.Prelude.{
  false, components, true, parent_and_name, [], ◌>>=◌, ◌∷◌, if◌then◌else◌, Bool, ◌++◌, Text, List,
  ℕ, ok, err, Result, Option, none, some, codes, join,
}
use census.FileAccess.{
  unsupported, qualifier, acl_capabilities, unresolvable, symlink, setfacl, io, acl_prefix,
  FileAccessBackend, Principal, FileAccessError, CommandError, Effect,
}
use census.Catalog.Grants.{
  traverse, execute, write, read, ResolvedFileGrant, Shape, Access, contains,
}

-- The three characters of an access set; `X` is the execute bit of directories only.
unfoldable pub acl_perm : Access → Text
acl_perm access =
    (if contains access read then b'r' else b'-')
    ∷ (if contains access write then b'w' else b'-')
    ∷ (if contains access execute then b'x' else if contains access traverse then b'X' else b'-')
    ∷ []

abbrev pub entry_of : Principal → Text
entry_of principal = acl_prefix principal ++ (b':' ∷ qualifier principal)

-- Two commands: the access ACL, then the default ACL.
unfoldable pub setfacl_args : Principal → ResolvedFileGrant → List (List Text)
unfolding acl_prefix qualifier acl_perm
setfacl_args principal grant =
    let entry = entry_of principal ++ (b':' ∷ acl_perm grant.access) in
    (codes "-R" ∷ codes "--physical" ∷ codes "-m" ∷ entry ∷ grant.path ∷ [])
    ∷ (codes "-d" ∷ codes "-R" ∷ codes "--physical" ∷ codes "-m" ∷ entry ∷ grant.path ∷ [])
    ∷ []

unfoldable pub revoke_args : Principal → ResolvedFileGrant → List (List Text)
unfolding acl_prefix qualifier
revoke_args principal grant =
    let entry = entry_of principal in
    (codes "-R" ∷ codes "--physical" ∷ codes "-x" ∷ entry ∷ grant.path ∷ [])
    ∷ (codes "-d" ∷ codes "-R" ∷ codes "--physical" ∷ codes "-x" ∷ entry ∷ grant.path ∷ [])
    ∷ []

unfoldable pub getfacl_args : Text → List Text
getfacl_args path = codes "--absolute-names" ∷ codes "-R" ∷ codes "--physical" ∷ path ∷ []

unfoldable pub restore_args : Text → List Text
restore_args rollback_file = (codes "--restore=" ++ rollback_file) ∷ []

-- What `symlink_metadata` says of a path.
pub data Lstat : Type 0 where
  symlinked : Lstat
  present : Lstat
  missing : Lstat
  unreadable : Text → Lstat

-- The command runner and the file system, over the state `S`.
pub record AclSystem (S : Type 0) : Type 0 where
  pub run : Text → List Text → S → Result CommandError (List ℕ) × S
  pub canonicalize : Text → S → Result Text Text
  pub symlink_metadata : Text → S → Lstat
  pub create_dir_all : Text → Effect Text S
  pub write_file : Text → List ℕ → Effect Text S

-- The configuration of a backend; `last_snapshot` is part of the state.
pub record AclBackend : Type 0 where
  pub setfacl_bin : Text
  pub getfacl_bin : Text
  pub rollback_dir : Text

pub record AclState (S : Type 0) : Type 0 where
  pub system : S
  pub last_snapshot : Option Text

module _ {S : Type 0} (sys : AclSystem S) (backend : AclBackend) where
  abbrev pub or_unresolvable : Text → Result Text Text → Result FileAccessError Text
  or_unresolvable path (ok p) = ok p
  or_unresolvable path (err reason) = err (unresolvable path reason)

  abbrev pub or_dot : Text → Text
  or_dot [] = codes "."
  or_dot (c ∷ s) = c ∷ s

  -- The parent is resolved and the name put back; a path without a name is resolved whole.
  abbrev pub resolve_ancestors : Text → Option (Text × Text) → S → Result FileAccessError Text
  resolve_ancestors path none s = or_unresolvable path (sys.canonicalize path s)
  resolve_ancestors path (some (parent, leaf)) s = do
    canonical_parent ← or_unresolvable path (sys.canonicalize (or_dot parent) s)
    ok (join canonical_parent leaf)

  -- A symlinked target is refused; a missing one is not.
  abbrev pub check_leaf : Text → Text → Lstat → Result FileAccessError Text
  check_leaf path resolved symlinked = err (symlink resolved)
  check_leaf path resolved present = ok resolved
  check_leaf path resolved missing = ok resolved
  check_leaf path resolved (unreadable reason) = err (unresolvable path reason)

  unfoldable pub resolve_grant_path : Text → S → Result FileAccessError Text
  resolve_grant_path path s = do
    resolved ← resolve_ancestors path (parent_and_name (components path)) s
    check_leaf path resolved (sys.symlink_metadata resolved s)

  abbrev pub Done : Type 0
  Done = Result FileAccessError (Unit {0}) × S

  -- The next command, unless this one failed.
  abbrev pub next_command : Text → Result CommandError (List ℕ) × S → (S → Done) → Done
  next_command path (ok out, s) k = k s
  next_command path (err source, s) k = (err (setfacl path source), s)

  unfoldable pub run_setfacl : Text → List (List Text) → S → Done
  run_setfacl path [] s = (ok tt, s)
  run_setfacl path (args ∷ commands) s =
      next_command path (sys.run backend.setfacl_bin args s) (run_setfacl path commands)

  abbrev pub on_target : Result FileAccessError Text → S → (Text → Done) → Done
  on_target (ok target) s k = k target
  on_target (err e) s k = (err e, s)

  abbrev pub is_dir : Shape → Bool
  is_dir Shape.dir = true
  is_dir Shape.file = false
  is_dir Shape.pattern_shape = false

  abbrev pub next_grant : Done → (S → Done) → Done
  next_grant (ok u, s) k = k s
  next_grant (err e, s) k = (err e, s)

  unfoldable pub materialize_one : Principal → ResolvedFileGrant → S → Done
  unfolding resolve_grant_path setfacl_args
  materialize_one principal grant s =
      if is_dir grant.shape
      then on_target (resolve_grant_path grant.path s) s (λ target.
        run_setfacl grant.path (setfacl_args principal (record grant { path = target })) s)
      else (err (unsupported grant.path grant.shape), s)

  unfoldable pub materialize_all : Principal → List ResolvedFileGrant → S → Done
  unfolding materialize_one
  materialize_all principal [] s = (ok tt, s)
  materialize_all principal (grant ∷ grants) s =
      next_grant (materialize_one principal grant s) (materialize_all principal grants)

  unfoldable pub revoke_grant : Principal → ResolvedFileGrant → S → Done
  unfolding resolve_grant_path revoke_args
  revoke_grant principal grant s =
      on_target (resolve_grant_path grant.path s) s (λ target.
        run_setfacl grant.path (revoke_args principal (record grant { path = target })) s)

  abbrev pub Dumped : Type 0
  Dumped = Result FileAccessError (List ℕ) × S

  abbrev pub next_dump :
      Text → List ℕ → Result CommandError (List ℕ) × S → (List ℕ → S → Dumped) → Dumped
  next_dump path dump (ok out, s) k = k (dump ++ out) s
  next_dump path dump (err source, s) k = (err (setfacl path source), s)

  abbrev pub dump_target : Result FileAccessError Text → S → (Text → Dumped) → Dumped
  dump_target (ok target) s k = k target
  dump_target (err e) s k = (err e, s)

  -- The loop over the paths.
  unfoldable pub dump_all : List Text → List ℕ → S → Dumped
  unfolding resolve_grant_path getfacl_args
  dump_all [] dump s = (ok dump, s)
  dump_all (path ∷ paths) dump s = dump_target (resolve_grant_path path s) s (λ target.
      next_dump path dump (sys.run backend.getfacl_bin (getfacl_args target) s) (dump_all paths))

  abbrev pub io_step : Text → Result Text (Unit {0}) × S → (S → Done) → Done
  io_step path (ok u, s) k = k s
  io_step path (err reason, s) k = (err (io path reason), s)

  unfoldable pub snapshot_file : Text
  snapshot_file = join backend.rollback_dir (codes "file-access-acl.snapshot")

  abbrev pub store_dump : Dumped → Done
  store_dump (ok dump, s) =
      io_step backend.rollback_dir (sys.create_dir_all backend.rollback_dir s)
        (λ t. io_step snapshot_file (sys.write_file snapshot_file dump t) (λ u. (ok tt, u)))
  store_dump (err e, s) = (err e, s)

  -- A snapshot is remembered only when it is on disk.
  abbrev pub remember : Option Text → Done → Result FileAccessError (Unit {0}) × AclState S
  remember old (ok u, s) = (ok tt, record { system = s; last_snapshot = some snapshot_file })
  remember old (err e, s) = (err e, record { system = s; last_snapshot = old })

  abbrev pub keep : Option Text → Done → Result FileAccessError (Unit {0}) × AclState S
  keep old (r, s) = (r, record { system = s; last_snapshot = old })

  abbrev pub restore_from : Option Text → S → Done
  restore_from none s = (ok tt, s)
  restore_from (some file) s = run_setfacl file (restore_args file ∷ []) s

  unfoldable pub acl_backend : FileAccessBackend (AclState S)
  unfolding materialize_all revoke_grant dump_all snapshot_file run_setfacl restore_args
  acl_backend = record {
    capabilities = acl_capabilities;
    materialize =
        λ principal grants st. keep st.last_snapshot (materialize_all principal grants st.system);
    revoke = λ principal grant st. keep st.last_snapshot (revoke_grant principal grant st.system);
    snapshot = λ paths st. remember st.last_snapshot (store_dump (dump_all paths [] st.system));
    restore = λ st. keep st.last_snapshot (restore_from st.last_snapshot st.system);
  }
