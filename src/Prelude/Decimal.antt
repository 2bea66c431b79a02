-- ===== src/Prelude/Decimal.antt =====
-- Decimal text: `{}` on numbers and `parse::<u32>`.
use Prim.Native.Nat.{ℕ, zero, ◌+◌, ◌*◌, ◌-◌, ◌/◌, ◌%◌, ◌^◌, ◌<◌, suc}
use mathlib.Core.Path.{◌≡◌, refl, ◌∙◌, ap}
use mathlib.Core.Logic.{◌≢◌, inl, inr}
use mathlib.Core.Bool.{Bool, true, false, ◌&&◌}
use mathlib.Core.Option.{Option, none, some}
use mathlib.Core.List.{[], ◌∷◌, ◌++◌}
use native.Mathlib.Omega.{arith}
use census.Prelude.Tests.{Bool-cases, ltb, leb, ◌==◌, if◌then◌else◌}
use census.Prelude.Lists.{All, All-append}
use census.Prelude.Strings.{Text}
use census.Prelude.Unicode.{is_whitespace, trim_start, trim_end, trim, keep_end}

-- The digits of a number, at most `fuel` of them; ten are enough for 32 bits.
unfoldable pub digits : ℕ → ℕ → Text
digits zero n = []
digits (suc fuel) n =
    let rest = digits fuel (n / 10) in
    if ltb n 10 then (b'0' + n) ∷ [] else rest ++ ((b'0' + n % 10) ∷ [])

abbrev pub u32_limit : ℕ
u32_limit = 2 ^ 32

-- `format!("{n}")` on a `u32`
abbrev pub print_u32 : ℕ → Text
print_u32 n = digits 10 n

abbrev pub is_digit : ℕ → Bool
is_digit c = leb b'0' c && leb c b'9'

-- One more digit, with the checks of the arithmetic on 32 bits.
unfoldable pub push_digit : Option ℕ → ℕ → Option ℕ
push_digit none c = none
push_digit (some v) c =
    if is_digit c
    then (if ltb (v * 10 + (c - b'0')) u32_limit then some (v * 10 + (c - b'0')) else none)
    else none

unfoldable pub parse_digits : Option ℕ → Text → Option ℕ
parse_digits v [] = v
parse_digits v (c ∷ s) = parse_digits (push_digit v c) s

-- `parse::<u32>`: an optional plus sign, then at least one digit.
unfoldable pub parse_u32 : Text → Option ℕ
parse_u32 [] = none
parse_u32 (c ∷ []) = parse_digits (some 0) (c ∷ [])
parse_u32 (c ∷ d ∷ s) =
    if c == b'+' then parse_digits (some 0) (d ∷ s) else parse_digits (some 0) (c ∷ d ∷ s)

parse_digits-append :
    (v : Option ℕ) (s t : Text) → parse_digits v (s ++ t) ≡ parse_digits (parse_digits v s) t
unfolding parse_digits
parse_digits-append v [] t = refl
parse_digits-append v (c ∷ s) t = parse_digits-append (push_digit v c) s t

push_digit_small :
    (v d : ℕ) → d < 10 → v * 10 + d < u32_limit → push_digit (some v) (b'0' + d) ≡ some (v * 10 + d)
unfolding push_digit
push_digit_small v d h k = ground arith

ltb_of : (a b : ℕ) → a < b → ltb a b ≡ true
ltb_of a b h = ground arith

div_bound : (fuel n : ℕ) → n < 10 ^ suc fuel → n / 10 < 10 ^ fuel
div_bound fuel n h = omega arith

parse_digits-digits :
    (fuel n : ℕ)
    → n < 10 ^ fuel
    → 0 < fuel
    → n < u32_limit
    → parse_digits (some 0) (digits fuel n) ≡ some n
unfolding digits parse_digits
parse_digits-digits zero n h z k = absurd (omega arith)
parse_digits-digits (suc zero) n h z k =
    let small : n < 10 = omega arith in
    rw (ltb_of n 10 small) (push_digit_small 0 n small (omega arith) ∙ ap some (omega arith))
parse_digits-digits (suc (suc fuel)) n h z k = elim (Bool-cases (ltb n 10)) [
  | inl e ↦ rw e (push_digit_small 0 n (ground arith) (omega arith) ∙ ap some (omega arith))
  | inr e ↦ rw e (
      parse_digits-append (some 0) (digits (suc fuel) (n / 10)) ((b'0' + n % 10) ∷ [])
      ∙ rw
          (parse_digits-digits (suc fuel) (n / 10) (div_bound (suc fuel) n h) (omega arith)
            (omega arith))
          (push_digit_small (n / 10) (n % 10) (omega arith) (omega arith) ∙ ap some (omega arith)))
]

-- Every digit is a digit, and there is one.
unfoldable pub AreDigits : Text → Type 0
AreDigits s = All (λ c. is_digit c ≡ true) s

digits-AreDigits : (fuel n : ℕ) → AreDigits (digits fuel n)
unfolding digits AreDigits
digits-AreDigits zero n = tt
digits-AreDigits (suc fuel) n = elim (Bool-cases (ltb n 10)) [
  | inl e ↦ rw e (ground arith, tt)
  | inr e ↦
      rw e
        (All-append _ (digits fuel (n / 10)) _ (digits-AreDigits fuel (n / 10)) (ground arith, tt))
]

digit-keeps : (c : ℕ) → is_digit c ≡ true → is_whitespace c ≡ false
unfolding is_whitespace
digit-keeps c h = ground arith

trim_end-digits : (s : Text) → AreDigits s → trim_end (s ++ (b'\n' ∷ [])) ≡ s
unfolding trim_end AreDigits is_whitespace
trim_end-digits [] h = refl
trim_end-digits (c ∷ []) h = rw (trim_end-digits [] tt) (rw (digit-keeps c h.0) refl)
trim_end-digits (c ∷ d ∷ s) h = ap (keep_end c) (trim_end-digits (d ∷ s) h.1)

-- Trimming a line of digits leaves the digits.
trim-digits : (s : Text) → AreDigits s → trim (s ++ (b'\n' ∷ [])) ≡ s
unfolding trim trim_start trim_end AreDigits is_whitespace
trim-digits [] h = refl
trim-digits (c ∷ s) h = rw (digit-keeps c h.0) (trim_end-digits (c ∷ s) h)

parse_u32-digits : (s : Text) → AreDigits s → s ≢ [] → parse_u32 s ≡ parse_digits (some 0) s
unfolding parse_u32 AreDigits
parse_u32-digits [] h n = absurd (n refl)
parse_u32-digits (c ∷ []) h n = refl
parse_u32-digits (c ∷ d ∷ s) h n = ground (arith, h.0)

digits-some : (fuel n : ℕ) → digits (suc fuel) n ≢ []
unfolding digits
digits-some fuel n h = go (digits fuel (n / 10)) h
  where
    go : (l : Text) → (if ltb n 10 then (b'0' + n) ∷ [] else l ++ ((b'0' + n % 10) ∷ [])) ≡ [] → ⊥
    go [] e = ground arith
    go (x ∷ l) e = ground arith

-- A printed 32-bit number on a line of its own is read back.
pub parse_u32-print_u32 :
    (n : ℕ) → n < u32_limit → parse_u32 (trim (print_u32 n ++ (b'\n' ∷ []))) ≡ some n
parse_u32-print_u32 n h =
    ap parse_u32 (trim-digits (digits 10 n) (digits-AreDigits 10 n))
    ∙ (parse_u32-digits (digits 10 n) (digits-AreDigits 10 n) (digits-some 9 n)
        ∙ parse_digits-digits 10 n (omega arith) (omega arith) h)

pub print_u32-AreDigits : (n : ℕ) → AreDigits (print_u32 n)
print_u32-AreDigits n = digits-AreDigits 10 n

-- The digits of a printed 32-bit number are read as the number.
pub parse_digits-print_u32 : (n : ℕ) → n < u32_limit → parse_digits (some 0) (print_u32 n) ≡ some n
parse_digits-print_u32 n h = parse_digits-digits 10 n (omega arith) (omega arith) h
