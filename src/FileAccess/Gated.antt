-- ===== src/FileAccess/Gated.antt =====
-- The open backend of src/fileaccess.rs behind the capability gate.
use census.Prelude.{
  components, [], ◌∷◌, ◌≡◌, parent_and_name, ◌>>=◌, Text, List, ℕ, ok, err, Result, Option, none,
  some, All,
}
use census.FileAccess.{
  unresolvable, symlink, io, setfacl, acl_capabilities, unsupported, Principal, FileAccessError,
  CommandError, route_grants,
}
use census.FileAccess.Acl.{
  missing, present, symlinked, unreadable, setfacl_args, or_dot, on_target, next_grant,
  next_command, check_leaf, run_setfacl, resolve_grant_path, resolve_ancestors, or_unresolvable,
  materialize_one, materialize_all, acl_backend, Lstat, Done, AclSystem, AclBackend, AclState,
}
use census.FileAccess.Routing.{acl-Routed-dir, route_grants-ok_iff}
use census.Catalog.Grants.{ResolvedFileGrant, Shape}

-- Not the refusal of a shape.
abbrev pub Supported : {A : Type 0} → Result FileAccessError A → Type 0
Supported (ok a) = Unit
Supported (err (unsupported path shape)) = ⊥
Supported (err (setfacl path source)) = Unit
Supported (err (io path reason)) = Unit
Supported (err (symlink path)) = Unit
Supported (err (unresolvable path reason)) = Unit

module _ {S : Type 0} (sys : AclSystem S) (backend : AclBackend) where
  next_command-Supported :
      (path : Text) (r : Result CommandError (List ℕ)) (s : S) (k : S → Done sys backend)
      → ((t : S) → Supported (k t).0)
      → Supported (next_command sys backend path (r, s) k).0
  next_command-Supported path (ok out) s k h = h s
  next_command-Supported path (err e) s k h = tt

  run_setfacl-Supported :
      (path : Text) (commands : List (List Text)) (s : S)
      → Supported (run_setfacl sys backend path commands s).0
  unfolding run_setfacl
  run_setfacl-Supported path [] s = tt
  run_setfacl-Supported path (args ∷ commands) s =
      next_command-Supported path (sys.run backend.setfacl_bin args s).0
        (sys.run backend.setfacl_bin args s).1 (run_setfacl sys backend path commands)
        (run_setfacl-Supported path commands)

  or_unresolvable-Supported :
      (path : Text) (r : Result Text Text) → Supported (or_unresolvable sys backend path r)
  or_unresolvable-Supported path (ok p) = tt
  or_unresolvable-Supported path (err e) = tt

  >>=-Supported :
      {A B : Type 0} (m : Result FileAccessError A) (f : A → Result FileAccessError B)
      → Supported m
      → ((a : A) → Supported (f a))
      → Supported (m >>= f)
  >>=-Supported (ok a) f h k = k a
  >>=-Supported (err (unsupported path shape)) f h k = h
  >>=-Supported (err (setfacl path source)) f h k = tt
  >>=-Supported (err (io path reason)) f h k = tt
  >>=-Supported (err (symlink path)) f h k = tt
  >>=-Supported (err (unresolvable path reason)) f h k = tt

  ancestors-Supported :
      (path : Text) (o : Option (Text × Text)) (s : S)
      → Supported (resolve_ancestors sys backend path o s)
  ancestors-Supported path none s = or_unresolvable-Supported path (sys.canonicalize path s)
  ancestors-Supported path (some (parent, leaf)) s =
      >>=-Supported
        (or_unresolvable sys backend path (sys.canonicalize (or_dot sys backend parent) s)) _
        (or_unresolvable-Supported path (sys.canonicalize (or_dot sys backend parent) s)) (λ a. tt)

  leaf-Supported :
      (path resolved : Text) (l : Lstat) → Supported (check_leaf sys backend path resolved l)
  leaf-Supported path resolved symlinked = tt
  leaf-Supported path resolved present = tt
  leaf-Supported path resolved missing = tt
  leaf-Supported path resolved (unreadable reason) = tt

  resolve-Supported : (path : Text) (s : S) → Supported (resolve_grant_path sys backend path s)
  unfolding resolve_grant_path
  resolve-Supported path s =
      >>=-Supported (resolve_ancestors sys backend path (parent_and_name (components path)) s) _
        (ancestors-Supported path (parent_and_name (components path)) s)
        (λ resolved. leaf-Supported path resolved (sys.symlink_metadata resolved s))

  on_target-Supported :
      (r : Result FileAccessError Text) (s : S) (k : Text → Done sys backend)
      → Supported r
      → ((t : Text) → Supported (k t).0)
      → Supported (on_target sys backend r s k).0
  on_target-Supported (ok t) s k h g = g t
  on_target-Supported (err (unsupported path shape)) s k h g = h
  on_target-Supported (err (setfacl path source)) s k h g = tt
  on_target-Supported (err (io path reason)) s k h g = tt
  on_target-Supported (err (symlink path)) s k h g = tt
  on_target-Supported (err (unresolvable path reason)) s k h g = tt

  one-Supported :
      (principal : Principal) (g : ResolvedFileGrant) (s : S)
      → g.shape ≡ Shape.dir
      → Supported (materialize_one sys backend principal g s).0
  unfolding materialize_one
  one-Supported principal g s e = rw e (
      on_target-Supported (resolve_grant_path sys backend g.path s) s _ (resolve-Supported g.path s)
        (λ t. run_setfacl-Supported g.path (setfacl_args principal (record g { path = t })) s))

  next_grant-Supported :
      (r : Result FileAccessError (Unit {0})) (s : S) (k : S → Done sys backend)
      → Supported r
      → ((t : S) → Supported (k t).0)
      → Supported (next_grant sys backend (r, s) k).0
  next_grant-Supported (ok u) s k h g = g s
  next_grant-Supported (err (unsupported path shape)) s k h g = h
  next_grant-Supported (err (setfacl path source)) s k h g = tt
  next_grant-Supported (err (io path reason)) s k h g = tt
  next_grant-Supported (err (symlink path)) s k h g = tt
  next_grant-Supported (err (unresolvable path reason)) s k h g = tt

  grants-Supported :
      (principal : Principal) (grants : List ResolvedFileGrant) (s : S)
      → All (λ g. g.shape ≡ Shape.dir) grants
      → Supported (materialize_all sys backend principal grants s).0
  unfolding materialize_all
  grants-Supported principal [] s h = tt
  grants-Supported principal (g ∷ grants) s h =
      next_grant-Supported (materialize_one sys backend principal g s).0
        (materialize_one sys backend principal g s).1 (materialize_all sys backend principal grants)
        (one-Supported principal g s h.0) (λ t. grants-Supported principal grants t h.1)

  -- Grants that pass the capability gate of the open backend are never refused by it for their shape
  -- while they are materialized: it can only fail at a path or at a command.
  pub gated-Supported :
      (principal : Principal) (grants : List ResolvedFileGrant)
      (routed : List (ℕ × ResolvedFileGrant)) (st : AclState S)
      → route_grants grants (acl_capabilities ∷ []) ≡ ok routed
      → Supported ((acl_backend sys backend).materialize principal grants st).0
  unfolding acl_backend
  gated-Supported principal grants routed st h = grants-Supported principal grants st.system (
      acl-Routed-dir grants routed
        ((route_grants-ok_iff (acl_capabilities ∷ []) grants routed).0 h))
