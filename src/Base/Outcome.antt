-- ===== src/Base/Outcome.antt =====
-- The outcome of code that may raise: a value, or the exception.
use mathlib.Core.Path.{◌≡◌, refl}
use mathlib.Core.Logic.{◌⊎◌, inl, inr, ◌≢◌}
use mathlib.Core.Bool.{Bool, true, false}
use frankensteinz_hermes.Base.Tests.{if◌then◌else◌}

pub data Result {ℓ κ} (E : Type ℓ) (A : Type κ) : Type (ℓ ⊔ κ) where
  err : E → Result E A
  ok : A → Result E A

-- The statement after the raising one is skipped.
infixl 5 ◌>>=◌ ◌>>◌
abbrev pub ◌>>=◌ {ℓ κ μ} :
    {E : Type ℓ} {V : Type κ} {W : Type μ} → Result E V → (V → Result E W) → Result E W
err raised >>= next = err raised
ok v >>= next = next v

abbrev pub ◌>>◌ {ℓ κ} : {E : Type ℓ} {W : Type κ} → Result E (Unit {0}) → Result E W → Result E W
first >> next = first >>= λ _. next

-- `if not test: raise e`
abbrev pub guard {ℓ} : {E : Type ℓ} → Bool → E → Result E (Unit {0})
guard false raised = err raised
guard true raised = ok tt

pub ok-injective {ℓ κ} :
    {E : Type ℓ} {A : Type κ} {r : Result E A} {a b : A} → r ≡ ok a → r ≡ ok b → a ≡ b
ok-injective h k = cc (h, k)

-- Inversion of a chain that has returned.
pub >>=-eq-ok {ℓ κ μ} :
    {E : Type ℓ} {V : Type κ} {W : Type μ} (first : Result E V) (next : V → Result E W) {w : W}
    → (first >>= next) ≡ ok w
    → (v : V) × (first ≡ ok v) × (next v ≡ ok w)
>>=-eq-ok (err raised) next h = cc
>>=-eq-ok (ok v) next h = (v, refl, h)

pub guard->>-eq-ok {ℓ κ} :
    {E : Type ℓ} {B : Type κ} (t : Bool) (e : E) (k : Result E B) {b : B}
    → (guard t e >> k) ≡ ok b
    → (t ≡ true) × (k ≡ ok b)
guard->>-eq-ok true e k h = (refl, h)
guard->>-eq-ok false e k h = cc

pub guard-eq-ok {ℓ} : {E : Type ℓ} (t : Bool) (e : E) → guard t e ≡ ok tt → t ≡ true
guard-eq-ok true e h = refl
guard-eq-ok false e h = cc

pub Result-cases {ℓ κ} :
    {E : Type ℓ} {A : Type κ} (r : Result E A) → ((a : A) × (r ≡ ok a)) ⊎ ((e : E) × (r ≡ err e))
Result-cases (ok a) = inl (a, refl)
Result-cases (err e) = inr (e, refl)

-- Where the first branch is not the outcome, the test has failed and the second one is.
pub if-else {ℓ} :
    {A : Type ℓ} (b : Bool) {x y z : A} → (if b then x else y) ≡ z → x ≢ z → (b ≡ false) × (y ≡ z)
if-else true h n = absurd (n h)
if-else false h n = (refl, h)
