-- ===== src/Prelude/Lists.antt =====
-- Lists measured by native numbers, Boolean quantifiers, and predicates on all or some entries.
use Prim.Native.Nat.{ℕ, suc}
use mathlib.Core.Logic.{◌⊎◌, inl, inr}
use mathlib.Core.Path.{◌≡◌, refl, subst}
use mathlib.Core.Bool.{Bool, true, false, ◌&&◌, ◌||◌}
use kwik_proxy_secure.Prelude.Tests.{both}
use mathlib.Core.List.{List, [], ◌∷◌, ◌++◌}

module _ {ℓ} {A : Type ℓ} where
  abbrev pub length : List A → ℕ
  length [] = 0
  length (x ∷ xs) = suc (length xs)

  -- `iter().all(test)` and `iter().any(test)`.
  abbrev pub all : (A → Bool) → List A → Bool
  all test [] = true
  all test (x ∷ xs) = test x && all test xs

  abbrev pub any : (A → Bool) → List A → Bool
  any test [] = false
  any test (x ∷ xs) = test x || any test xs

  -- `iter().filter(test)`.
  unfoldable pub keep : (A → Bool) → List A → List A
  keep test [] = []
  keep test (x ∷ xs) = let rest = keep test xs in elim (test x) [ true ↦ x ∷ rest | false ↦ rest ]

module _ {ℓ} {A : Type ℓ} where
  abbrev pub All : (A → Type 0) → List A → Type 0
  All P [] = Unit
  All P (x ∷ xs) = P x × All P xs

  abbrev pub Some : (A → Type 0) → List A → Type 0
  Some P [] = ⊥
  Some P (x ∷ xs) = P x ⊎ Some P xs

module _ {A : Type 0} where
  -- `x` is an entry of the list.
  abbrev pub Member : A → List A → Type 0
  Member x = Some (λ y. y ≡ x)

  pub Member-append_right : (x : A) (ys xs : List A) → Member x xs → Member x (ys ++ xs)
  Member-append_right x [] xs m = m
  Member-append_right x (y ∷ ys) xs m = inr (Member-append_right x ys xs m)

  pub All-append : (P : A → Type 0) (xs ys : List A) → All P xs → All P ys → All P (xs ++ ys)
  All-append P [] ys hx hy = hy
  All-append P (x ∷ xs) ys hx hy = (hx.0, All-append P xs ys hx.1 hy)

  pub All-Member : (P : A → Type 0) (x : A) (xs : List A) → All P xs → Member x xs → P x
  All-Member P x [] h m = elim m [ ]
  All-Member P x (y ∷ ys) h (inl e) = subst P e h.0
  All-Member P x (y ∷ ys) h (inr m) = All-Member P x ys h.1 m

  keep_one :
      (P : A → Type 0) (b : Bool) (x : A) (rest : List A)
      → (b ≡ true → P x)
      → All P rest
      → All P (elim b [ true ↦ x ∷ rest | false ↦ rest ])
  keep_one P true x rest h hs = (h refl, hs)
  keep_one P false x rest h hs = hs

  -- What is kept has passed the test.
  pub keep-All : (test : A → Bool) (xs : List A) → All (λ x. test x ≡ true) (keep test xs)
  unfolding keep
  keep-All test [] = tt
  keep-All test (x ∷ xs) =
      keep_one (λ y. test y ≡ true) (test x) x (keep test xs) (λ h. h) (keep-All test xs)

  pub All-map : (P Q : A → Type 0) (xs : List A) → ((x : A) → P x → Q x) → All P xs → All Q xs
  All-map P Q [] f h = tt
  All-map P Q (x ∷ xs) f h = (f x h.0, All-map P Q xs f h.1)

  -- `all` in a proof.
  pub all-All : (test : A → Bool) (xs : List A) → all test xs ≡ true → All (λ x. test x ≡ true) xs
  all-All test [] h = tt
  all-All test (x ∷ xs) h =
      let (here, later) = both (test x) (all test xs) h in (here, all-All test xs later)
