-- ===== src/Prelude/Outcome.antt =====
-- `Result<A, E>` and its chains.
use mathlib.Core.Path.{◌≡◌, refl}
use mathlib.Core.Logic.{◌↔◌}
use mathlib.Core.Bool.{Bool, true, false}
use census.Prelude.Tests.{if◌then◌else◌}

pub data Result {ℓ κ} (E : Type κ) (A : Type ℓ) : Type (ℓ ⊔ κ) where
  ok : A → Result E A
  err : E → Result E A

infixl 5 ◌>>=◌ ◌>>◌
abbrev pub ◌>>=◌ {ℓ κ ι} :
    {E : Type ι} {A : Type ℓ} {B : Type κ} → Result E A → (A → Result E B) → Result E B
ok a >>= f = f a
err e >>= f = err e

abbrev pub ◌>>◌ {ℓ ι} : {E : Type ι} {B : Type ℓ} → Result E (Unit {0}) → Result E B → Result E B
m >> k = m >>= λ _. k

-- What a successful chain consists of.
pub >>=-eq_ok {ℓ κ ι} :
    {E : Type ι} {A : Type ℓ} {B : Type κ} (m : Result E A) (f : A → Result E B) (b : B)
    → (m >>= f) ≡ ok b
    → (a : A) × (m ≡ ok a) × (f a ≡ ok b)
>>=-eq_ok (ok a) f b h = (a, refl, h)
>>=-eq_ok (err e) f b h = cc

pub >>-eq_ok_iff {ℓ ι} :
    {E : Type ι} {B : Type ℓ} (m : Result E (Unit {0})) (k : Result E B) (b : B)
    → ((m >> k) ≡ ok b) ↔ ((m ≡ ok tt) × (k ≡ ok b))
>>-eq_ok_iff (ok u) k b = (λ h. (refl, h), λ h. h.1)
>>-eq_ok_iff (err e) k b = (λ h. cc, λ h. cc)

pub ok-injective {ℓ ι} :
    {E : Type ι} {A : Type ℓ} {a b : A} → ◌≡◌ {A = Result E A} (ok a) (ok b) → a ≡ b
ok-injective h = cc

-- A guard that fails with an error is passed exactly when its test is false.
pub guard-eq_ok_iff {ℓ ι} :
    {E : Type ι} {A : Type ℓ} (t : Bool) (e : E) (m : Result E A) (a : A)
    → ((if t then err e else m) ≡ ok a) ↔ ((t ≡ false) × (m ≡ ok a))
guard-eq_ok_iff true e m a = (λ h. cc, λ h. absurd (cc (h.0)))
guard-eq_ok_iff false e m a = (λ h. (refl, h), λ h. h.1)

-- Every result that a computation can give has the property.
abbrev pub Gives {ℓ κ ι} : {E : Type ι} {A : Type ℓ} → (A → Type κ) → Result E A → Type (ℓ ⊔ κ ⊔ ι)
Gives {A = A} Q m = (a : A) → m ≡ ok a → Q a

pub >>=-Gives {ℓ κ ι υ} :
    {E : Type ι} {A : Type ℓ} {B : Type κ} (Q : B → Type υ) (m : Result E A) (f : A → Result E B)
    → ((a : A) → Gives Q (f a))
    → Gives Q (m >>= f)
>>=-Gives Q m f k b h = let r = >>=-eq_ok m f b h in k r.0 b r.2
