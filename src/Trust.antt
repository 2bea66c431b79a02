-- ===== src/Trust.antt =====
-- The trust gate of src/trust.rs. Files, hex decoding and Ed25519 are given by the caller.
pub mod Payload
pub mod Decision
pub mod Floor
use census.Prelude.{
  ◌||◌, length, ◌&&◌, ◌>>◌, trim, parse_u32, not, ltb, ◌>>=◌, trim_start, strip_prefix, ok, none,
  if◌then◌else◌, err, [], ◌==◌, ◌++◌, ◌∷◌, true, some, print_u32, from_utf8, false, codes, Result,
  ◌*◌, ℕ, Text, Option, List, Bool,
}
use census.Declaration.{Declaration}

-- `MAX_DECLARATION_BYTES`
abbrev pub max_declaration_bytes : ℕ
max_declaration_bytes = 256 * 1024

abbrev pub version_file : Text
version_file = codes "declaration.version"

pub record TrustOptions : Type 0 where
  pub trust_fs : Bool
  pub trust_anchor_path : Text
  pub persist_dir : Text

pub data TrustMode : Type 0 where
  standalone : TrustMode
  managed : ℕ → TrustMode

-- The reasons, which are messages, are left out.
pub data TrustDecision : Type 0 where
  trusted : TrustMode → TrustDecision
  not_trusted : TrustDecision

-- `TrustDecision::is_trusted`
unfoldable pub is_trusted : TrustDecision → Bool
is_trusted (trusted mode) = true
is_trusted not_trusted = false

-- `TrustDecision::mode`
unfoldable pub mode_of : TrustDecision → Option TrustMode
mode_of (trusted mode) = some mode
mode_of not_trusted = none

pub data TrustError : Type 0 where
  missing_signature : TrustError
  not_utf8 : TrustError
  oversize : ℕ → ℕ → TrustError
  bad_signature_hex : TrustError
  anchor_unreadable : Text → TrustError
  bad_key : Text → TrustError
  signature_mismatch : TrustError
  rollback : ℕ → ℕ → TrustError
  persist_unreadable : Text → TrustError
  persist_write : Text → TrustError

-- What `read_capped` says of a file.
pub data ReadOutcome : Type 0 where
  contents : Text → ReadOutcome
  not_found unreadable : ReadOutcome

-- The file system and the `hex` and `ed25519_dalek` crates, over the type of public keys.
pub record TrustSource (Key : Type 0) : Type 0 where
  pub read_capped : Text → ReadOutcome
  pub join : Text → Text → Text
  pub hex_decode : Text → Option (List ℕ)
  pub key_from_bytes : List ℕ → Option Key
  pub verify_strict : Key → List ℕ → List ℕ → Bool

-- `strip_prefix("signature")`, then `trim_start().starts_with('=')`
abbrev pub starts_with_equals : Text → Bool
starts_with_equals [] = false
starts_with_equals (c ∷ s) = c == b'='

abbrev pub assigns : Option Text → Bool
assigns none = false
assigns (some rest) = starts_with_equals (trim_start rest)

abbrev pub is_signature_text : Option Text → Bool
is_signature_text none = false
is_signature_text (some s) = assigns (strip_prefix (codes "signature") (trim_start s))

unfoldable pub is_signature_line : List ℕ → Bool
is_signature_line line = is_signature_text (from_utf8 line)

-- A byte before the lines of the rest starts a line of its own, or lengthens the first.
abbrev pub add_byte : ℕ → List (List ℕ) → List (List ℕ)
add_byte b [] = (b ∷ []) ∷ []
add_byte b (line ∷ lines) = if b == b'\n' then (b ∷ []) ∷ line ∷ lines else (b ∷ line) ∷ lines

-- `split_inclusive` at line feeds
unfoldable pub split_inclusive : List ℕ → List (List ℕ)
split_inclusive [] = []
split_inclusive (b ∷ bytes) = add_byte b (split_inclusive bytes)

-- The loop of `signed_payload`: the kept bytes, and whether a line was removed.
unfoldable pub strip_lines : Bool → List (List ℕ) → List ℕ × Bool
strip_lines removed [] = ([], removed)
strip_lines removed (line ∷ lines) =
    let drops = not removed && is_signature_line line in
    let rest = strip_lines (removed || drops) lines in
    if drops then rest else (line ++ rest.0, rest.1)

abbrev pub removal : List ℕ × Bool → Result TrustError (List ℕ)
removal (out, removed) = if removed then ok out else err missing_signature

abbrev pub decoded : Option Text → Result TrustError (Unit {0})
decoded none = err not_utf8
decoded (some s) = ok tt

unfoldable pub signed_payload : List ℕ → Result TrustError (List ℕ)
signed_payload bytes =
    if ltb max_declaration_bytes (length bytes)
    then err (oversize (length bytes) max_declaration_bytes)
    else (decoded (from_utf8 bytes) >> removal (strip_lines false (split_inclusive bytes)))

-- `check_rollback`
unfoldable pub check_rollback : ℕ → Option ℕ → Result TrustError (Unit {0})
check_rollback version none = ok tt
check_rollback version (some f) = if ltb version f then err (rollback version f) else ok tt

-- What a chain makes of a missing value.
abbrev pub ok_or : {A : Type 0} → Option A → TrustError → Result TrustError A
ok_or none e = err e
ok_or (some a) e = ok a

module _ {Key : Type 0} (sys : TrustSource Key) where
  -- `read_trust_anchor`, from what reading the file says.
  abbrev pub anchor_of : Text → ReadOutcome → Result TrustError Key
  anchor_of path (contents raw) = do
    bytes ← ok_or (sys.hex_decode (trim raw)) (bad_key path)
    if length bytes == 32
        then ok_or (sys.key_from_bytes bytes) (bad_key path)
        else err (bad_key path)
  anchor_of path _ = err (anchor_unreadable path)

  unfoldable pub read_trust_anchor : Text → Result TrustError Key
  read_trust_anchor path = anchor_of path (sys.read_capped path)

  abbrev pub check_signature : Key → List ℕ → List ℕ → Result TrustError (Unit {0})
  check_signature pubkey payload sig_bytes =
      if not (length sig_bytes == 64)
      then err bad_signature_hex
      else if sys.verify_strict pubkey payload sig_bytes
      then ok tt
      else err signature_mismatch

  unfoldable pub verify_ed25519 : Key → List ℕ → Text → Result TrustError (Unit {0})
  verify_ed25519 pubkey payload sig_hex = do
    sig_bytes ← ok_or (sys.hex_decode (trim sig_hex)) bad_signature_hex
    check_signature pubkey payload sig_bytes

  abbrev pub floor_of : Text → ReadOutcome → Result TrustError (Option ℕ)
  floor_of path (contents s) = do
    v ← ok_or (parse_u32 (trim s)) (persist_unreadable path)
    ok (some v)
  floor_of path not_found = ok none
  floor_of path unreadable = err (persist_unreadable path)

  unfoldable pub last_applied_version : Text → Result TrustError (Option ℕ)
  last_applied_version dir =
      let path = sys.join dir version_file in floor_of path (sys.read_capped path)

  unfoldable pub verify_trust :
      Declaration → List ℕ → TrustOptions → Result TrustError TrustDecision
  verify_trust decl decl_bytes opts = if opts.trust_fs then ok (trusted standalone) else (do
    sig_hex ← ok_or decl.signature missing_signature
    pubkey ← read_trust_anchor opts.trust_anchor_path
    payload ← signed_payload decl_bytes
    verify_ed25519 pubkey payload sig_hex
    floor ← last_applied_version opts.persist_dir
    check_rollback decl.version floor
    ok (trusted (managed decl.version)))

-- The contents that `persist_version` gives the version file.
unfoldable pub persisted_body : ℕ → Text
persisted_body version = print_u32 version ++ (b'\n' ∷ [])
