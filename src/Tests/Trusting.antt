-- ===== src/Tests/Trusting.antt =====
-- The trust gate, run on a signed declaration, with stand-ins for the files and the crates.
use census.Prelude.{
  push_digit, parse_digits, parse_u32, digits, trim_end, is_whitespace, trim_start, trim, lead,
  utf8_step, is_empty, ◌⊎◌, zero, refl, not, length, decode, arith, ◌∷◌, ◌↔◌, some, from_utf8, true,
  suc, ok, ◌≡◌, if◌then◌else◌, false, codes, [], ◌++◌, ◌≤◌, ℕ, str_eq, Text, List,
}
use census.Trust.{
  max_declaration_bytes, standalone, persisted_body, managed, check_rollback, version_file,
  verify_ed25519, trusted, split_inclusive, contents, strip_lines, read_trust_anchor,
  is_signature_line, verify_trust, signed_payload, last_applied_version, TrustSource, TrustOptions,
}
use census.Tests.Declaring.{host}
use census.Trust.Floor.{verify_trust-monotone}
use census.Trust.Payload.{signed_payload-ok_iff, FirstRemoved}
use census.Trust.Decision.{verify_trust-ok_iff, Admitted}

abbrev zeros : ℕ → List ℕ
zeros zero = []
zeros (suc n) = 0 ∷ zeros n

abbrev anchor_path : Text
anchor_path = codes "/a"

abbrev saved_dir : Text
saved_dir = codes "/d"

-- The anchor decodes to 32 bytes and a signature to 64; the version file holds version 7. A
-- signature verifies when the payload is not empty.
abbrev pub stand_in : TrustSource ℕ
stand_in = record {
  read_capped =
      λ path. if str_eq path anchor_path then contents (codes "k") else contents (persisted_body 7);
  join = λ dir file. dir ++ file;
  hex_decode = λ s. if str_eq s (codes "k") then some (zeros 32) else some (zeros 64);
  key_from_bytes = λ bytes. some 1;
  verify_strict = λ key payload sig. not (is_empty payload);
}

abbrev options : TrustOptions
options = record { trust_fs = false; trust_anchor_path = anchor_path; persist_dir = saved_dir }

abbrev signed : List ℕ
signed = codes "a\n signature = b\nc"

signed_payload_test : signed_payload signed ≡ ok (codes "a\nc")
unfolding signed_payload strip_lines split_inclusive is_signature_line from_utf8 decode utf8_step
    lead trim_start is_whitespace
signed_payload_test = refl

signed_payload-ok_iff_example : (signed_payload signed ≡ ok (codes "a\nc")) ↔ (
    (length signed ≤ max_declaration_bytes)
    × ((s : Text) × (from_utf8 signed ≡ some s))
    × FirstRemoved (split_inclusive signed) (codes "a\nc"))
signed_payload-ok_iff_example = signed_payload-ok_iff signed (codes "a\nc")

verify_trust_test : verify_trust stand_in host signed options ≡ ok (trusted (managed 9))
unfolding verify_trust read_trust_anchor verify_ed25519 last_applied_version check_rollback
    persisted_body signed_payload strip_lines split_inclusive is_signature_line from_utf8 decode
    utf8_step lead trim trim_start trim_end is_whitespace str_eq digits parse_u32 parse_digits
    push_digit
verify_trust_test = refl

verify_trust-ok_iff_example :
    (verify_trust stand_in host signed options ≡ ok (trusted standalone)) ↔ (
      ((false ≡ true) × (trusted standalone ≡ trusted standalone))
      ⊎ ((false ≡ false)
          × Admitted stand_in host signed options
          × (trusted standalone ≡ trusted (managed 9))))
verify_trust-ok_iff_example = verify_trust-ok_iff stand_in host signed options (trusted standalone)

version_test : stand_in.read_capped (saved_dir ++ version_file) ≡ contents (persisted_body 7)
unfolding str_eq
version_test = refl

verify_trust-monotone_example : 7 ≤ 9
verify_trust-monotone_example =
    verify_trust-monotone stand_in host signed options 7 (trusted (managed 9)) (omega arith)
      version_test refl verify_trust_test
