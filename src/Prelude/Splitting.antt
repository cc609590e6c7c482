-- ===== src/Prelude/Splitting.antt =====
-- What a test says of the pieces of a text, and where a text is split.
use mathlib.Core.Bool.{Bool, false, ◌||◌}
use mathlib.Core.List.{[], ◌∷◌, ◌++◌, reverse, reverse-cons}
use mathlib.Core.Option.{some}
use mathlib.Core.Path.{◌≡◌, refl, ap, ◌∙◌}
use native.Mathlib.Omega.{arith}
use Prim.Native.Nat.{ℕ}
use kwik_proxy_secure.Prelude.Lists.{any}
use kwik_proxy_secure.Prelude.Scanning.{
  drop_while, trim, strip_prefix, split, contains, is_whitespace,
}
use kwik_proxy_secure.Prelude.Strings.{Text}

module _ (test : ℕ → Bool) where
  pub any-concat : (s t : Text) → any test (s ++ t) ≡ (any test s || any test t)
  any-concat [] t = refl
  any-concat (c ∷ s) t = ground (arith, any-concat s t)

  any-reverse : (s : Text) → any test (reverse s) ≡ any test s
  any-reverse [] = refl
  any-reverse (c ∷ s) =
      ap (any test) (reverse-cons c s)
      ∙ ground (arith, any-concat (reverse s) (c ∷ []), any-reverse s)

  any-drop_while :
      (dropped : ℕ → Bool) (s : Text) → any test s ≡ false → any test (drop_while dropped s) ≡ false
  unfolding drop_while
  any-drop_while dropped [] e = refl
  any-drop_while dropped (c ∷ s) e = ground (arith, any-drop_while dropped s)

  pub any-trim : (s : Text) → any test s ≡ false → any test (trim s) ≡ false
  unfolding trim
  any-trim s e =
      let front = drop_while is_whitespace s in
      any-reverse (drop_while is_whitespace (reverse front))
      ∙ any-drop_while is_whitespace (reverse front)
          (any-reverse front ∙ any-drop_while is_whitespace s e)

  pub any-strip_prefix :
      (s prefix rest : Text)
      → strip_prefix s prefix ≡ some rest
      → any test s ≡ false
      → any test rest ≡ false
  unfolding strip_prefix
  any-strip_prefix s [] rest found e = ground arith
  any-strip_prefix [] (p ∷ ps) rest found e = cc
  any-strip_prefix (c ∷ s) (p ∷ ps) rest found e =
      any-strip_prefix s ps rest (ground arith) (ground arith)

-- A text without the separator is one part.
pub split_whole : (sep : ℕ) (s : Text) → contains sep s ≡ false → split sep s ≡ s ∷ []
unfolding split
split_whole sep [] e = refl
split_whole sep (c ∷ s) e = ground (arith, split_whole sep s)

pub split-concat :
    (sep : ℕ) (s t : Text) → contains sep s ≡ false → split sep (s ++ sep ∷ t) ≡ s ∷ split sep t
unfolding split
split-concat sep [] t e = ground arith
split-concat sep (c ∷ s) t e = ground (arith, split-concat sep s t)
