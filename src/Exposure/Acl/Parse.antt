-- ===== src/Exposure/Acl/Parse.antt =====
-- `parse_perms` of src/exposure/acl.rs.
use census.Prelude.{
  refl, [], ◌∷◌, arith, ◌↔◌, true, none, false, ◌≡◌, some, if◌then◌else◌, ◌==◌, ℕ, Text, Option,
  Bool,
}
use census.Exposure.Acl.{AclPerms, rwx}

unfoldable pub perm_bit : ℕ → ℕ → Option Bool
perm_bit c set = if c == set then some true else if c == b'-' then some false else none

abbrev pub triple : Option Bool → Option Bool → Option Bool → Option AclPerms
triple (some r) (some w) (some x) = some (record { read = r; write = w; execute = x })
triple _ _ _ = none

unfoldable pub parse_perms : Text → Option AclPerms
parse_perms (r ∷ w ∷ x ∷ []) = triple (perm_bit r b'r') (perm_bit w b'w') (perm_bit x b'x')
parse_perms _ = none

abbrev bit_char : Bool → ℕ → ℕ
bit_char b set = if b then set else b'-'

perm_bit_iff :
    (c set : ℕ) (b : Bool)
    → (set == b'-') ≡ false
    → (perm_bit c set ≡ some b) ↔ (c ≡ bit_char b set)
unfolding perm_bit
perm_bit_iff c set true n = (λ h. ground (arith, h), λ h. ground (arith, h))
perm_bit_iff c set false n = (λ h. ground (arith, h, n), λ h. ground (arith, h, n))

triple-some :
    (a b c : Option Bool) (p : AclPerms)
    → triple a b c ≡ some p
    → (a ≡ some p.read) × (b ≡ some p.write) × (c ≡ some p.execute)
triple-some none b c p h = cc
triple-some (some a) none c p h = cc
triple-some (some a) (some b) none p h = cc
triple-some (some a) (some b) (some c) p h = (cc, cc, cc)

-- A field is read as permissions exactly when it is their three letters.
pub parse_perms_iff : (field : Text) (p : AclPerms) → (parse_perms field ≡ some p) ↔ (field ≡ rwx p)
unfolding parse_perms rwx
parse_perms_iff [] p = (λ h. cc, λ h. cc)
parse_perms_iff (r ∷ []) p = (λ h. cc, λ h. cc)
parse_perms_iff (r ∷ w ∷ []) p = (λ h. cc, λ h. cc)
parse_perms_iff (r ∷ w ∷ x ∷ []) p = (
  λ h.
      let t = triple-some (perm_bit r b'r') (perm_bit w b'w') (perm_bit x b'x') p h in
      cc (
        (perm_bit_iff r b'r' p.read refl).0 t.0,
        (perm_bit_iff w b'w' p.write refl).0 t.1,
        (perm_bit_iff x b'x' p.execute refl).0 t.2,
      ),
  λ h.
      rw
        (
          (perm_bit_iff r b'r' p.read refl).1 (ground (arith, h)),
          (perm_bit_iff w b'w' p.write refl).1 (ground (arith, h)),
          (perm_bit_iff x b'x' p.execute refl).1 (ground (arith, h)),
        )
        refl,
)
parse_perms_iff (r ∷ w ∷ x ∷ y ∷ s) p = (λ h. cc, λ h. cc)
