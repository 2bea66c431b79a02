-- ===== src/Trust/Decision.antt =====
-- `verify_trust` of src/trust.rs.
use census.Prelude.{
  >>-eq_ok_iff, inr, ok-injective, sym, inl, Bool-cases, false, ◌⊎◌, refl, true, length, arith,
  >>=-eq_ok, ◌↔◌, trim, none, ◌≤◌, ok, Text, ◌≡◌, some, List, ℕ, Option,
}
use census.Trust.{
  missing_signature, managed, standalone, trusted, last_applied_version, bad_signature_hex,
  signed_payload, read_trust_anchor, TrustDecision, ok_or, check_signature, TrustOptions,
  verify_trust, verify_ed25519, TrustError, check_rollback, TrustSource,
}
use census.Declaration.{Declaration}

-- A version that is not below the last applied one.
abbrev pub NotBelow : ℕ → Option ℕ → Type 0
NotBelow version none = Unit
NotBelow version (some floor) = floor ≤ version

check_rollback_iff :
    (version : ℕ) (floor : Option ℕ)
    → (check_rollback version floor ≡ ok tt) ↔ NotBelow version floor
unfolding check_rollback
check_rollback_iff version none = (λ h. tt, λ h. refl)
check_rollback_iff version (some f) = (λ h. ground arith, λ h. ground (arith, h))

ok_or-ok : {A : Type 0} (o : Option A) (e : TrustError) (a : A) → ok_or o e ≡ ok a → o ≡ some a
ok_or-ok none e a h = cc
ok_or-ok (some b) e a h = cc

module _ {Key : Type 0} (sys : TrustSource Key) where
  -- The hex of a signature of 64 bytes that verifies.
  pub record Signs (key : Key) (payload : List ℕ) (sig_hex : Text) : Type 0 where
    pub bytes : List ℕ
    pub decodes : sys.hex_decode (trim sig_hex) ≡ some bytes
    pub size : length bytes ≡ 64
    pub verifies : sys.verify_strict key payload bytes ≡ true

  check_signature_iff :
      (key : Key) (payload bytes : List ℕ)
      → (check_signature sys key payload bytes ≡ ok tt)
        ↔ ((length bytes ≡ 64) × (sys.verify_strict key payload bytes ≡ true))
  check_signature_iff key payload bytes =
      (λ h. (ground arith, ground arith), λ h. ground (arith, h.0, h.1))

  verify_ed25519_iff :
      (key : Key) (payload : List ℕ) (sig_hex : Text)
      → (verify_ed25519 sys key payload sig_hex ≡ ok tt) ↔ Signs key payload sig_hex
  unfolding verify_ed25519
  verify_ed25519_iff key payload sig_hex = (
    λ h.
        let b = >>=-eq_ok (ok_or (sys.hex_decode (trim sig_hex)) bad_signature_hex) _ tt h in
        let c = (check_signature_iff key payload b.0).0 b.2 in
        record {
          bytes = b.0;
          decodes = ok_or-ok _ bad_signature_hex b.0 b.1;
          size = c.0;
          verifies = c.1;
        },
    λ s. rw s.decodes ((check_signature_iff key payload s.bytes).1 (s.size, s.verifies)),
  )

  -- All that the managed mode asks of a declaration.
  pub record Admitted (decl : Declaration) (decl_bytes : List ℕ) (opts : TrustOptions)
      : Type 0 where
    pub sig_hex : Text
    pub signed : decl.signature ≡ some sig_hex
    pub key : Key
    pub anchor : read_trust_anchor sys opts.trust_anchor_path ≡ ok key
    pub payload : List ℕ
    pub stripped : signed_payload decl_bytes ≡ ok payload
    pub signs : Signs key payload sig_hex
    pub floor : Option ℕ
    pub last : last_applied_version sys opts.persist_dir ≡ ok floor
    pub not_below : NotBelow decl.version floor

  -- A declaration is trusted exactly on an explicit --trust-fs, or when it carries a signature that
  -- verifies, with the key of the anchor, its bytes without the signature line, and its version is
  -- not below the last applied one. No other decision is ever returned.
  pub verify_trust-ok_iff :
      (decl : Declaration) (decl_bytes : List ℕ) (opts : TrustOptions) (d : TrustDecision)
      → (verify_trust sys decl decl_bytes opts ≡ ok d) ↔ (
          ((opts.trust_fs ≡ true) × (d ≡ trusted standalone))
          ⊎ ((opts.trust_fs ≡ false)
              × Admitted decl decl_bytes opts
              × (d ≡ trusted (managed decl.version))))
  unfolding verify_trust
  verify_trust-ok_iff decl decl_bytes opts d = elim (Bool-cases opts.trust_fs) [
    | inl e ↦ (
      λ h. inl (e, sym (ok-injective (rw e at h))),
      elim [ inl s ↦ rw (e, s.1) | inr m ↦ absurd (cc (e, m.0)) ],
    )
    | inr e ↦ (
      λ h.
          let k = rw e at h in
          let s = >>=-eq_ok (ok_or decl.signature missing_signature) _ d k in
          let p = >>=-eq_ok (read_trust_anchor sys opts.trust_anchor_path) _ d s.2 in
          let q = >>=-eq_ok (signed_payload decl_bytes) _ d p.2 in
          let v = (>>-eq_ok_iff (verify_ed25519 sys p.0 q.0 s.0) _ d).0 q.2 in
          let f = >>=-eq_ok (last_applied_version sys opts.persist_dir) _ d v.1 in
          let r = (>>-eq_ok_iff (check_rollback decl.version f.0) _ d).0 f.2 in
          inr (
            e,
            record {
              sig_hex = s.0;
              signed = ok_or-ok _ missing_signature s.0 s.1;
              key = p.0;
              anchor = p.1;
              payload = q.0;
              stripped = q.1;
              signs = (verify_ed25519_iff p.0 q.0 s.0).0 v.0;
              floor = f.0;
              last = f.1;
              not_below = (check_rollback_iff decl.version f.0).0 r.0;
            },
            sym (ok-injective r.1),
          ),
      elim [
        | inl s ↦ absurd (cc (e, s.0))
        | inr m ↦
            let a = m.1 in
            rw (
              e,
              a.signed,
              a.anchor,
              a.stripped,
              (verify_ed25519_iff a.key a.payload a.sig_hex).1 a.signs,
              a.last,
              (check_rollback_iff decl.version a.floor).1 a.not_below,
              m.2,
            )
      ],
    )
  ]
