-- ===== src/Prelude/Outcome.antt =====
-- `Result<A, E>` and its `?` operator as a monad.
use mathlib.Core.Path.{◌≡◌, refl}
use mathlib.Core.Logic.{◌⊎◌, inl, inr}
use mathlib.Core.Bool.{Bool, true, false}

pub data Result (E A : Type 0) : Type 0 where
  ok : A → Result E A
  err : E → Result E A

module _ {E : Type 0} where
  infixl 5 ◌>>=◌ ◌>>◌
  abbrev pub ◌>>=◌ : {A B : Type 0} → Result E A → (A → Result E B) → Result E B
  err failure >>= next = err failure
  ok part >>= next = next part

  abbrev pub ◌>>◌ : {B : Type 0} → Result E (Unit {0}) → Result E B → Result E B
  first >> next = first >>= λ unit. next

-- `if failed { bail!(e) }`.
abbrev pub ensure : {E : Type 0} → Bool → E → Result E (Unit {0})
ensure false failure = err failure
ensure true failure = ok tt

-- Inversion of a successful bind.
pub >>=-eq-ok :
    {E A B : Type 0} {made : B} (first : Result E A) (next : A → Result E B)
    → (first >>= next) ≡ ok made
    → (part : A) × (first ≡ ok part) × (next part ≡ ok made)
>>=-eq-ok (err failure) next h = cc
>>=-eq-ok (ok part) next h = (part, refl, h)

pub Result-cases :
    {E A : Type 0} (r : Result E A) → ((a : A) × (r ≡ ok a)) ⊎ ((e : E) × (r ≡ err e))
Result-cases (ok a) = inl (a, refl)
Result-cases (err e) = inr (e, refl)

-- A check that did not stop the rest has held.
pub ensure->>-ok :
    {E A : Type 0} (test : Bool) (failure : E) (rest : Result E A) {made : A}
    → (ensure test failure >> rest) ≡ ok made
    → (test ≡ true) × (rest ≡ ok made)
ensure->>-ok true failure rest h = (refl, h)
ensure->>-ok false failure rest h = cc

pub ensure-ok : {E : Type 0} (test : Bool) (failure : E) → ensure test failure ≡ ok tt → test ≡ true
ensure-ok true failure h = refl
ensure-ok false failure h = cc

pub >>-ok :
    {E A : Type 0} (first : Result E (Unit {0})) (rest : Result E A) {made : A}
    → (first >> rest) ≡ ok made
    → (first ≡ ok tt) × (rest ≡ ok made)
>>-ok (ok _) rest h = (refl, h)
>>-ok (err failure) rest h = cc
