-- ===== src/State/Load.antt =====
-- `RegistryState::load` of src/state.rs. Whether the file exists, its text and the TOML parser are
-- given by the caller.
use census.Prelude.Map
use census.Prelude.{
  In-map, subst, All-of_In, refl, ap, ◌∙◌, ok-injective, arith, sym, none, guard-eq_ok_iff,
  >>-eq_ok_iff, ◌∷◌, ◌↔◌, some, not, [], true, ok, map, if◌then◌else◌, err, Distinct, ◌>>◌, ◌≡◌,
  All, Text, Result, Option, List, Bool,
}
use census.State.{default_empty, RegistryState, ManagedGroup, ManagedAccount, RegistryFile}
use census.Declaration.{is_valid_user_name, is_valid_group_name}
use census.Prelude.Map.Collect.{get-collect}

pub data StateError : Type 0 where
  io toml_parse : StateError
  invalid_account_name invalid_group_name : Text → StateError

pub record RegistrySource : Type 0 where
  pub exists : Bool
  pub read_capped : Option Text
  pub from_toml : Text → Option RegistryFile

unfoldable pub check_account_names : List ManagedAccount → Result StateError (Unit {0})
check_account_names [] = ok tt
check_account_names (a ∷ accounts) =
    if not (is_valid_user_name a.name)
    then err (invalid_account_name a.name)
    else check_account_names accounts

unfoldable pub check_group_names : List ManagedGroup → Result StateError (Unit {0})
check_group_names [] = ok tt
check_group_names (g ∷ groups) =
    if not (is_valid_group_name g.name)
    then err (invalid_group_name g.name)
    else check_group_names groups

abbrev pub keyed : RegistryFile → RegistryState
keyed file = record {
  accounts = Map.collect (map (λ (a : ManagedAccount). (a.name, a)) file.accounts) [];
  groups = Map.collect (map (λ (g : ManagedGroup). (g.name, g)) file.groups) [];
}

-- The part of `load` after the parser.
unfoldable pub accept_file : RegistryFile → Result StateError RegistryState
accept_file file =
    check_account_names file.accounts >> (check_group_names file.groups >> ok (keyed file))

abbrev pub parsed : Option RegistryFile → Result StateError RegistryState
parsed none = err toml_parse
parsed (some file) = accept_file file

abbrev pub read_text : RegistrySource → Option Text → Result StateError RegistryState
read_text source none = err io
read_text source (some text) = parsed (source.from_toml text)

unfoldable pub load : RegistrySource → Result StateError RegistryState
load source = if not source.exists then ok default_empty else read_text source source.read_capped

abbrev pub AccountNames : RegistryFile → Type 0
AccountNames file = All (λ (a : ManagedAccount). is_valid_user_name a.name ≡ true) file.accounts

abbrev pub GroupNames : RegistryFile → Type 0
GroupNames file = All (λ (g : ManagedGroup). is_valid_group_name g.name ≡ true) file.groups

check_account_names_iff :
    (l : List ManagedAccount)
    → (check_account_names l ≡ ok tt)
      ↔ All (λ (a : ManagedAccount). is_valid_user_name a.name ≡ true) l
unfolding check_account_names
check_account_names_iff [] = (λ h. tt, λ h. refl)
check_account_names_iff (a ∷ l) = (
  λ h.
      let g = (guard-eq_ok_iff (not (is_valid_user_name a.name)) _ _ tt).0 h in
      (ground arith, (check_account_names_iff l).0 g.1),
  λ n.
      (guard-eq_ok_iff (not (is_valid_user_name a.name)) _ _ tt).1
        (ground (arith, n.0), (check_account_names_iff l).1 n.1),
)

check_group_names_iff :
    (l : List ManagedGroup)
    → (check_group_names l ≡ ok tt)
      ↔ All (λ (g : ManagedGroup). is_valid_group_name g.name ≡ true) l
unfolding check_group_names
check_group_names_iff [] = (λ h. tt, λ h. refl)
check_group_names_iff (a ∷ l) = (
  λ h.
      let g = (guard-eq_ok_iff (not (is_valid_group_name a.name)) _ _ tt).0 h in
      (ground arith, (check_group_names_iff l).0 g.1),
  λ n.
      (guard-eq_ok_iff (not (is_valid_group_name a.name)) _ _ tt).1
        (ground (arith, n.0), (check_group_names_iff l).1 n.1),
)

accept_file_iff :
    (file : RegistryFile) (s : RegistryState)
    → (accept_file file ≡ ok s) ↔ (AccountNames file × GroupNames file × (s ≡ keyed file))
unfolding accept_file
accept_file_iff file s = (
  λ h.
      let a = (>>-eq_ok_iff (check_account_names file.accounts) _ s).0 h in
      let b = (>>-eq_ok_iff (check_group_names file.groups) _ s).0 a.1 in
      (
        (check_account_names_iff file.accounts).0 a.0,
        (check_group_names_iff file.groups).0 b.0,
        sym (ok-injective b.1),
      ),
  λ n. (>>-eq_ok_iff (check_account_names file.accounts) _ s).1 (
    (check_account_names_iff file.accounts).1 n.0,
    (>>-eq_ok_iff (check_group_names file.groups) _ s).1
        ((check_group_names_iff file.groups).1 n.1, ap ok (sym n.2)),
  ),
)

module _ {V : Type 0} (name : V → Text) where
  keys-keyed : (l : List V) → Map.keys (map (λ v. (name v, v)) l) ≡ map name l
  keys-keyed [] = refl
  keys-keyed (v ∷ l) = ap (λ k. name v ∷ k) (keys-keyed l)

  keyed-get :
      (l : List V)
      → Distinct (map name l)
      → All (λ v. Map.get (name v) (Map.collect (map (λ v. (name v, v)) l) []) ≡ some v) l
  keyed-get l d = All-of_In _ l (λ v i.
      get-collect (name v) v (map (λ v. (name v, v)) l) [] (subst Distinct (sym (keys-keyed l)) d)
        (In-map (λ v. (name v, v)) v l i))

-- A file that exists, is read and parses.
pub record Parses (source : RegistrySource) (file : RegistryFile) : Type 0 where
  pub text : Text
  pub present : source.exists ≡ true
  pub read : source.read_capped ≡ some text
  pub parse : source.from_toml text ≡ some file

-- Whatever is loaded from a file whose records have distinct names holds every record of the file
-- under its name, and each of these names is a valid user or group name.
pub load-get :
    (source : RegistrySource) (file : RegistryFile) (s : RegistryState)
    → Parses source file
    → Distinct (map (λ (a : ManagedAccount). a.name) file.accounts)
    → Distinct (map (λ (g : ManagedGroup). g.name) file.groups)
    → load source ≡ ok s
    → AccountNames file
      × GroupNames file
      × All (λ (a : ManagedAccount). Map.get a.name s.accounts ≡ some a) file.accounts
      × All (λ (g : ManagedGroup). Map.get g.name s.groups ≡ some g) file.groups
unfolding load
load-get source file s p da dg h =
    let h' : accept_file file ≡ ok s = sym (rw (p.present, p.read, p.parse) refl) ∙ h in
    let r = (accept_file_iff file s).0 h' in
    (
      r.0,
      r.1,
      subst
          (λ (x : RegistryState).
            All (λ (a : ManagedAccount). Map.get a.name x.accounts ≡ some a) file.accounts)
          (sym r.2) (keyed-get (λ (a : ManagedAccount). a.name) file.accounts da),
      subst
          (λ (x : RegistryState).
            All (λ (g : ManagedGroup). Map.get g.name x.groups ≡ some g) file.groups)
          (sym r.2) (keyed-get (λ (g : ManagedGroup). g.name) file.groups dg),
    )
