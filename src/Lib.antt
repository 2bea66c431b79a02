-- ===== src/Lib.antt =====
-- census: declarative management of local accounts and groups on Linux hosts.
--
-- A declaration and a role store resolve to target accounts and groups (src/model.rs). The plan
-- (src/plan.rs) is the difference between the targets and the registry of what Census manages
-- (src/state.rs), checked against the live system (src/inspect.rs). An apply (src/apply.rs) puts
-- off deletes of accounts with a live session (src/sessions.rs), asks the anti-lockout gate
-- (src/lockout.rs), runs the actions and writes the new registry.
--
-- The files and what they model:
-- - Prelude and its children: text as a list of code points, the order of the standard library as
--   an instance argument, `Result`, and `BTreeMap` with text keys as a list of entries in ascending
--   order of their keys (Prelude/Map).
-- - Catalog: Grants is `Access`, `FileGrant`, `ResolvedFileGrant` and the union of grants; Paths is
--   `path_at_or_under` (src/catalog.rs).
-- - Model, State, Inspect: the records of src/model.rs and src/state.rs, `RegistryState::load`
--   (State/Load), and the group lookups of src/inspect.rs as a record of functions.
-- - Plan: Equality is `str_set_equal`, `sudo_set_equal` and `file_grants_set_equal`; Accounts is
--   `diff_fields` and `diff`; Groups is `diff_groups` and `diff_groups_via_inspector`; Declared is
--   `diff_group_fields` and `diff_resolved_groups`.
-- - Lockout and Sessions: `gate` with the shells it counts, and the set of live sessions.
-- - Apply: Reconcile is `reconcile_live_sessions` and what `run` derives from it; Accounts is
--   `build_managed_set`, Groups is `build_managed_groups`; `run` itself is in the files named below.
-- - Declaration: `Declaration::validate` and `required_groups` of src/declaration.rs.
-- - Trust: `signed_payload`, `verify_trust` and the persisted version of src/trust.rs. Files, hex
--   decoding and Ed25519 are fields of `TrustSource`, which the caller gives.
-- - Exposure: Acl is src/exposure/acl.rs, Access is `effective` of src/exposure/access.rs and Reach
--   is src/exposure/reach.rs. The climb of `reachable_dir` runs on fuel, one more than the length of
--   the path, and each step shortens the path.
-- - Exposure/Access/Classes and Exposure/Access/Members: the classes of acl(5), stated on the entries
--   of an ACL and the groups of a principal, and the searches of src/exposure/access.rs for them.
-- - Exposure/Mounts, Exposure/Scope: which mounts and roots a walk skips. Exposure/Walk: the walk of
--   src/exposure/index.rs, on fuel that Exposure/Walk/Ends shows to be enough.
-- - Backup: src/backup.rs, over a record of the calls on the file system. Backup/Replace has what
--   these calls do to the files, as laws; Backup/Names has the names of the copies.
-- - FileAccess, Provision, Sudoers: the two seams that an apply drives, `FileAccessBackend` and
--   `Provisioner`, as records of operations on a state; `AclBackend` (FileAccess/Acl),
--   `ShadowUtilsProvisioner` (Provision/ShadowUtils) with its argument vectors (Provision/Argv), and
--   the sudoers fragments (Sudoers) with their atomic write (Sudoers/Fragment). Commands, the file
--   system and visudo are fields of a record that the caller gives.
-- - Apply/Prepare, Apply/Run, Apply/Phases, Apply/Exec and Apply/Touched: `run` of src/apply.rs. A
--   step takes the states of both seams with what the run has counted and logged, and gives a result
--   and the next states; `>>` goes on only after a success. Apply/Seams is what the two traits
--   document, as laws; Apply/Schedule is the run without its error handling.
-- - Tests: concrete runs, and each theorem at a concrete input.
--
-- A loop is recursion on its list; a loop that pushes to a vector is a function that returns what it
-- pushes. A map that is only read is looked up by `get`; one that is written keeps its order. The
-- printed lines of an update are constructors of `Change` that hold the recorded and the wanted
-- value. A hash set is a list, of which only membership is asked. The climb of
-- `reachable_dir`, the walk and the printing of a number (ten digits, enough for 32 bits) run on
-- fuel; nothing else does.
--
-- Not modelled: TOML and JSON (serde), tracing, the operating system behind the calls, and the
-- messages of errors. `resolve` of src/model.rs is a function that the caller gives. What the code reads from the system is a function that the caller gives.
pub mod Prelude
pub mod Catalog
pub mod Model
pub mod State
pub mod Inspect
pub mod Plan
pub mod Lockout
pub mod Sessions
pub mod Apply
pub mod Declaration
pub mod Trust
pub mod FileAccess
pub mod Sudoers
pub mod Provision
pub mod Backup
pub mod Exposure
mod Tests
