-- ===== src/Checks/Steps.antt =====
-- Code that spends a budget of commands as it goes: a step takes the budget and returns it with its
-- outcome. And runs that have effects, of which an exception skips the rest.
use frankensteinz_hermes.Base.{
  ok-injective, ap, ℕ, String, Bool, true, false, List, [], ◌++◌, any, any-append, arith, ◌≡◌, refl,
  Result, ok, err, guard,
}
use frankensteinz_hermes.Python.{Exn}
use frankensteinz_hermes.Worker.Calls.{Process, Completed}

-- What a command of git prints on its first pipe: the text that it decodes to, whether it is blank,
-- the number of its bytes and their digest.
pub record Output : Type 0 where
  pub text : Result Exn String
  pub is_blank : Bool
  pub size : ℕ
  pub digest : String

-- The repository and the clock, at each command that is counted.
pub record Repository : Type 0 where
  pub wall : ℕ
  pub elapsed : ℕ → ℕ
  pub process : ℕ → List String → Process
  pub output : ℕ → List String → Output

abbrev pub Steps : Type 0 → Type 0 → Type 0
Steps S A = S → S × Result Exn A

-- A result that needs no command.
abbrev pub lift : {S A : Type 0} → Result Exn A → Steps S A
lift r g = (g, r)

abbrev pub continue_with : {S A B : Type 0} → S × Result Exn A → (A → Steps S B) → S × Result Exn B
continue_with (g, err e) next = (g, err e)
continue_with (g, ok a) next = next a g

infixl 5 ◌>>=◌ ◌>>◌
abbrev pub ◌>>=◌ : {S A B : Type 0} → Steps S A → (A → Steps S B) → Steps S B
first >>= next = λ g. continue_with (first g) next

abbrev pub ◌>>◌ : {S A B : Type 0} → Steps S A → Steps S B → Steps S B
first >> next = first >>= λ a. next

-- `if not test: raise e`
abbrev pub check : {S : Type 0} → Bool → Exn → Steps S (Unit {0})
check test e = lift (guard test e)

pub continue_with-eq-ok :
    {S A B : Type 0} (s : S × Result Exn A) (next : A → Steps S B) {b : B}
    → (continue_with s next).1 ≡ ok b
    → (g : S) × (a : A) × (s ≡ (g, ok a)) × ((next a g).1 ≡ ok b)
continue_with-eq-ok (g, err e) next h = cc
continue_with-eq-ok (g, ok a) next h = (g, a, refl, h)

abbrev pub with_output : Output → Result Exn Completed → Result Exn (Completed × Output)
with_output output (err e) = err e
with_output output (ok c) = ok (c, output)

pub with_output-ok :
    (o : Output) (s : Result Exn Completed) (c : Completed) (p : Output)
    → with_output o s ≡ ok (c, p)
    → o ≡ p
with_output-ok o (err e) c p h = cc
with_output-ok o (ok d) c p h = ap (λ x. x.1) (ok-injective refl h)

-- What a run has done outside of the process, as far as it has been attempted, and how it ends.
pub record Trace (E : Type 0) : Type 0 where
  pub effects : List E
  pub result : Result Exn (Unit {0})

-- A statement with its effects, and the ones behind it, which an exception skips.
unfoldable pub step : {E A : Type 0} → List E → Result Exn A → (A → Trace E) → Trace E
step es (err e) next = record { effects = es; result = err e }
step es (ok a) next =
    let rest = next a in record { effects = es ++ rest.effects; result = rest.result }

abbrev pub stop : {E : Type 0} → Exn → Trace E
stop e = record { effects = []; result = err e }

module _ {E : Type 0} (p : E → Bool) where
  -- Where an effect of the statements behind a step has taken place, the step has returned.
  pub step-any :
      {A : Type 0} (es : List E) (r : Result Exn A) (next : A → Trace E)
      → any p es ≡ false
      → any p (step es r next).effects ≡ true
      → (a : A) × (r ≡ ok a) × (any p (next a).effects ≡ true)
  unfolding step
  step-any es (err e) next quiet h = cc
  step-any es (ok a) next quiet h = (a, refl, ground (arith, any-append p es (next a).effects))

  pub step-quiet :
      {A : Type 0} (es : List E) (r : Result Exn A) (next : A → Trace E)
      → any p es ≡ false
      → ((a : A) → any p (next a).effects ≡ false)
      → any p (step es r next).effects ≡ false
  unfolding step
  step-quiet es (err e) next quiet later = quiet
  step-quiet es (ok a) next quiet later = ground (arith, any-append p es (next a).effects, later a)

  pub any-first : (xs ys : List E) → any p (xs ++ ys) ≡ true → any p ys ≡ false → any p xs ≡ true
  any-first xs ys h quiet = ground (arith, any-append p xs ys)
