-- ===== src/Trust/Floor.antt =====
-- `persist_version` and `last_applied_version` of src/trust.rs.
use census.Trust.{
  floor_of, verify_trust, contents, version_file, TrustDecision, TrustOptions, persisted_body,
  last_applied_version, TrustSource,
}
use census.Declaration.{Declaration}
use census.Prelude.{
  subst, sym, ok-injective, parse_u32-print_u32, inr, ◌∙◌, inl, ◌≤◌, ap, some, ok, false, ◌≡◌,
  u32_limit, ◌<◌, ℕ, Text, List,
}
use census.Trust.Decision.{NotBelow, verify_trust-ok_iff}

module _ {Key : Type 0} (sys : TrustSource Key) where
  -- The version that is persisted is read back.
  pub last_applied_version-persisted :
      (dir : Text) (v : ℕ)
      → v < u32_limit
      → sys.read_capped (sys.join dir version_file) ≡ contents (persisted_body v)
      → last_applied_version sys dir ≡ ok (some v)
  unfolding last_applied_version persisted_body
  last_applied_version-persisted dir v h e =
      ap (floor_of sys (sys.join dir version_file)) e ∙ rw (parse_u32-print_u32 v h)

  -- Once a version is persisted, no declaration of a lower version is trusted without --trust-fs.
  pub verify_trust-monotone :
      (decl : Declaration) (decl_bytes : List ℕ) (opts : TrustOptions) (v : ℕ) (d : TrustDecision)
      → v < u32_limit
      → sys.read_capped (sys.join opts.persist_dir version_file) ≡ contents (persisted_body v)
      → opts.trust_fs ≡ false
      → verify_trust sys decl decl_bytes opts ≡ ok d
      → v ≤ decl.version
  verify_trust-monotone decl decl_bytes opts v d h e t ok_d =
      elim ((verify_trust-ok_iff sys decl decl_bytes opts d).0 ok_d) [
        | inl s ↦ absurd (cc (t, s.0))
        | inr m ↦
            let a = m.1 in
            let same : a.floor ≡ some v =
              ok-injective (sym a.last ∙ last_applied_version-persisted opts.persist_dir v h e) in
            subst (NotBelow decl.version) same a.not_below
      ]
