-- ===== src/Trust/Payload.antt =====
-- `signed_payload` of src/trust.rs.

use mathlib.Core.List.{append_assoc}
use census.Prelude.{
  arith, >>-eq_ok_iff, ltb, guard-eq_ok_iff, from_utf8, none, ◌≤◌, some, ok-injective, length, ok,
  Text, Option, inr, inl, sym, refl, Bool, All, ◌==◌, ◌∙◌, ◌↔◌, ap, [], Bool-cases, ◌∷◌, ◌≡◌, true,
  false, ◌++◌, ℕ, List,
}
use census.Trust.{
  max_declaration_bytes, decoded, signed_payload, removal, is_signature_line, add_byte, strip_lines,
  split_inclusive,
}

unfoldable pub concat : List (List ℕ) → List ℕ
concat [] = []
concat (l ∷ ls) = l ++ concat ls

concat-add_byte : (b : ℕ) (ls : List (List ℕ)) → concat (add_byte b ls) ≡ b ∷ concat ls
unfolding concat
concat-add_byte b [] = refl
concat-add_byte b (l ∷ ls) = elim (Bool-cases (b == b'\n')) [ inl e ↦ rw e | inr e ↦ rw e ]

concat-split_inclusive : (bytes : List ℕ) → concat (split_inclusive bytes) ≡ bytes
unfolding split_inclusive concat
concat-split_inclusive [] = refl
concat-split_inclusive (b ∷ bytes) =
    concat-add_byte b (split_inclusive bytes) ∙ ap (λ l. b ∷ l) (concat-split_inclusive bytes)

concat-append : (a b : List (List ℕ)) → concat (a ++ b) ≡ concat a ++ concat b
unfolding concat
concat-append [] b = refl
concat-append (l ∷ a) b =
    ap (λ s. l ++ s) (concat-append a b) ∙ sym (append_assoc l (concat a) (concat b))

strip_lines-removed : (ls : List (List ℕ)) → strip_lines true ls ≡ (concat ls, true)
unfolding strip_lines concat
strip_lines-removed [] = refl
strip_lines-removed (l ∷ ls) = ap (λ (r : List ℕ × Bool). (l ++ r.0, r.1)) (strip_lines-removed ls)

-- The first signature line of some lines, and the bytes of the others.
pub record FirstRemoved (ls : List (List ℕ)) (out : List ℕ) : Type 0 where
  pub before : List (List ℕ)
  pub line : List ℕ
  pub after : List (List ℕ)
  pub split : ls ≡ before ++ (line ∷ after)
  pub signature : is_signature_line line ≡ true
  pub earlier : All (λ l. is_signature_line l ≡ false) before
  pub rest : out ≡ concat before ++ concat after

strip_lines-split :
    (before : List (List ℕ)) (line : List ℕ) (after : List (List ℕ))
    → All (λ l. is_signature_line l ≡ false) before
    → is_signature_line line ≡ true
    → strip_lines false (before ++ (line ∷ after)) ≡ (concat before ++ concat after, true)
unfolding strip_lines concat
strip_lines-split [] line after a e = rw e (strip_lines-removed after)
strip_lines-split (l ∷ before) line after a e = rw a.0 (
    ap (λ (r : List ℕ × Bool). (l ++ r.0, r.1)) (strip_lines-split before line after a.1 e)
    ∙ ap (λ s. (s, true)) (sym (append_assoc l (concat before) (concat after))))

later :
    (l : List ℕ) (ls : List (List ℕ)) (o out : List ℕ)
    → is_signature_line l ≡ false
    → out ≡ l ++ o
    → FirstRemoved ls o
    → FirstRemoved (l ∷ ls) out
unfolding concat
later l ls o out e q f = record {
  before = l ∷ f.before;
  line = f.line;
  after = f.after;
  split = ap (λ x. l ∷ x) f.split;
  signature = f.signature;
  earlier = (e, f.earlier);
  rest = q ∙ (ap (λ s. l ++ s) f.rest ∙ sym (append_assoc l (concat f.before) (concat f.after)));
}

strip_lines-first :
    (ls : List (List ℕ)) (out : List ℕ) → strip_lines false ls ≡ (out, true) → FirstRemoved ls out
unfolding strip_lines concat
strip_lines-first [] out h = absurd (cc (ap (λ (r : List ℕ × Bool). r.1) h))
strip_lines-first (l ∷ ls) out h = elim (Bool-cases (is_signature_line l)) [
  | inl e ↦ record {
    before = [];
    line = l;
    after = ls;
    split = refl;
    signature = e;
    earlier = tt;
    rest = ap (λ (r : List ℕ × Bool). r.0) (sym (rw e at h) ∙ strip_lines-removed ls);
  }
  | inr e ↦
      let k = rw e at h in
      let r = strip_lines false ls in
      later l ls r.0 out e (ap (λ (x : List ℕ × Bool). x.0) (sym k))
        (strip_lines-first ls r.0 (ap (λ b. (r.0, b)) (ap (λ (x : List ℕ × Bool). x.1) k)))
]

removal-ok : (r : List ℕ × Bool) (out : List ℕ) → removal r ≡ ok out → r ≡ (out, true)
removal-ok (o, true) out h = ap (λ x. (x, true)) (ok-injective h)
removal-ok (o, false) out h = cc

decoded-ok : (o : Option Text) → decoded o ≡ ok tt → (s : Text) × (o ≡ some s)
decoded-ok none h = cc
decoded-ok (some s) h = (s, refl)

-- The signed payload exists exactly when the declaration is within the size limit, is UTF-8 and has
-- a signature line; it is then the declaration without the first such line, byte for byte.
pub signed_payload-ok_iff :
    (bytes out : List ℕ)
    → (signed_payload bytes ≡ ok out) ↔ (
        (length bytes ≤ max_declaration_bytes)
        × ((s : Text) × (from_utf8 bytes ≡ some s))
        × FirstRemoved (split_inclusive bytes) out)
unfolding signed_payload
signed_payload-ok_iff bytes out = (
  λ h.
      let g = (guard-eq_ok_iff (ltb max_declaration_bytes (length bytes)) _ _ out).0 h in
      let d = (>>-eq_ok_iff (decoded (from_utf8 bytes)) _ out).0 g.1 in
      (
        ground (arith, g.0),
        decoded-ok (from_utf8 bytes) d.0,
        strip_lines-first (split_inclusive bytes) out (removal-ok _ out d.1),
      ),
  λ h.
      let f = h.2 in
      (guard-eq_ok_iff (ltb max_declaration_bytes (length bytes)) _ _ out).1 (
        ground (arith, h.0),
        (>>-eq_ok_iff (decoded (from_utf8 bytes)) _ out).1 (
          ap decoded h.1.1,
          ap removal (
              ap (strip_lines false) f.split
              ∙ (strip_lines-split f.before f.line f.after f.earlier f.signature
                  ∙ ap (λ s. (s, true)) (sym f.rest))),
        ),
      ),
)
