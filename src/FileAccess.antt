-- ===== src/FileAccess.antt =====
-- The file-access seam of src/fileaccess.rs: principals, capabilities, and the routing of grants.
pub mod Routing
pub mod Acl
pub mod Gated
use census.Prelude.{
  ◌+◌, ◌≡◌, ℕ, Bool, true, false, Option, none, some, List, [], ◌∷◌, Text, codes, print_u32, Result,
  ok, err, ◌>>=◌, if◌then◌else◌,
}
use census.Catalog.Grants.{ResolvedFileGrant, Shape, dir, file, pattern_shape}

pub data Principal : Type 0 where
  user : Text → Principal
  group : Text → Principal
  uid : ℕ → Principal
  gid : ℕ → Principal

-- `Principal::acl_prefix`
unfoldable pub acl_prefix : Principal → Text
acl_prefix (user name) = codes "u"
acl_prefix (group name) = codes "g"
acl_prefix (uid id) = codes "u"
acl_prefix (gid id) = codes "g"

-- `Principal::qualifier`
unfoldable pub qualifier : Principal → Text
qualifier (user name) = name
qualifier (group name) = name
qualifier (uid id) = print_u32 id
qualifier (gid id) = print_u32 id

pub record Capabilities : Type 0 where
  pub dir : Bool
  pub per_path : Bool
  pub pattern_glob : Bool
  pub realtime : Bool
  pub rewrite_proof : Bool

-- Why a command failed; the operating system's message is a text.
pub data CommandError : Type 0 where
  spawn : Text → Text → CommandError
  non_zero : Text → Text → Text → CommandError

-- The reason of `unsupported` follows from the shape, and is left out.
pub data FileAccessError : Type 0 where
  unsupported : Text → Shape → FileAccessError
  setfacl : Text → CommandError → FileAccessError
  io : Text → Text → FileAccessError
  symlink : Text → FileAccessError
  unresolvable : Text → Text → FileAccessError

-- An operation on a state that may fail, and may have changed the state when it does.
abbrev pub Effect : Type 0 → Type 0 → Type 0
Effect E S = S → Result E (Unit {0}) × S

-- The trait, over the state `F` that a backend acts on.
pub record FileAccessBackend (F : Type 0) : Type 0 where
  pub capabilities : Capabilities
  pub materialize : Principal → List ResolvedFileGrant → Effect FileAccessError F
  pub revoke : Principal → ResolvedFileGrant → Effect FileAccessError F
  pub snapshot : List Text → Effect FileAccessError F
  pub restore : Effect FileAccessError F

unfoldable pub acl_capabilities : Capabilities
acl_capabilities = record {
  dir = true;
  per_path = false;
  pattern_glob = false;
  realtime = false;
  rewrite_proof = true;
}

unfoldable pub shape_requires : Shape → Capabilities → Bool
shape_requires Shape.dir caps = caps.dir
shape_requires Shape.file caps = caps.per_path
shape_requires Shape.pattern_shape caps = caps.pattern_glob

-- The inner loop: the index of the first backend that covers the shape.
unfoldable pub choose : Shape → ℕ → List Capabilities → Option ℕ
unfolding shape_requires
choose shape idx [] = none
choose shape idx (caps ∷ backends) =
    if shape_requires shape caps then some idx else choose shape (1 + idx) backends

abbrev pub chosen_or : ResolvedFileGrant → Option ℕ → Result FileAccessError (ℕ × ResolvedFileGrant)
chosen_or grant none = err (unsupported grant.path grant.shape)
chosen_or grant (some idx) = ok (idx, grant)

-- A backend is given by its capabilities, the only thing that routing asks of it.
unfoldable pub route_grants :
    List ResolvedFileGrant
    → List Capabilities
    → Result FileAccessError (List (ℕ × ResolvedFileGrant))
unfolding choose
route_grants [] backends = ok []
route_grants (grant ∷ grants) backends = do
  first ← chosen_or grant (choose grant.shape 0 backends)
  rest ← route_grants grants backends
  ok (first ∷ rest)
