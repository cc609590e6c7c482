-- ===== src/Prelude/Scanning.antt =====
-- The methods of `str` and `char` that the source calls, on code points.
use Prim.Native.Nat.{ℕ, ◌+◌, ◌-◌}
use mathlib.Core.Bool.{Bool, ◌&&◌, ◌||◌}
use mathlib.Core.List.{List, [], ◌∷◌, reverse}
use mathlib.Core.Option.{Option, none, some}
use kwik_proxy_secure.Prelude.Tests.{leb, ◌==◌, if◌then◌else◌}
use kwik_proxy_secure.Prelude.Lists.{any}
use kwik_proxy_secure.Prelude.Strings.{Text, starts_with, is_ascii_uppercase, is_ascii_lowercase}

-- `char::is_control` (category Cc).
abbrev pub is_control : ℕ → Bool
is_control c = leb c 0x1f || (leb 0x7f c && leb c 0x9f)

-- `char::is_whitespace` (property White_Space).
abbrev pub is_whitespace : ℕ → Bool
is_whitespace c =
    (leb 9 c && leb c 13)
    || c == 32
    || c == 0x85
    || c == 0xa0
    || c == 0x1680
    || (leb 0x2000 c && leb c 0x200a)
    || c == 0x2028
    || c == 0x2029
    || c == 0x202f
    || c == 0x205f
    || c == 0x3000

abbrev pub ascii_lower : ℕ → ℕ
ascii_lower c = if is_ascii_uppercase c then c + 32 else c

unfoldable pub to_ascii_lowercase : Text → Text
to_ascii_lowercase [] = []
to_ascii_lowercase (c ∷ cs) = ascii_lower c ∷ to_ascii_lowercase cs

abbrev pub ascii_upper : ℕ → ℕ
ascii_upper c = if is_ascii_lowercase c then c - 32 else c

unfoldable pub to_ascii_uppercase : Text → Text
to_ascii_uppercase [] = []
to_ascii_uppercase (c ∷ cs) = ascii_upper c ∷ to_ascii_uppercase cs

-- The text without the leading characters that pass the test.
unfoldable pub drop_while : (ℕ → Bool) → Text → Text
drop_while test [] = []
drop_while test (c ∷ cs) = let rest = drop_while test cs in if test c then rest else c ∷ cs

unfoldable pub trim_end_matches : (ℕ → Bool) → Text → Text
unfolding drop_while
trim_end_matches test t = reverse (drop_while test (reverse t))

unfoldable pub trim : Text → Text
unfolding drop_while trim_end_matches
trim t = trim_end_matches is_whitespace (drop_while is_whitespace t)

unfoldable pub ends_with : Text → Text → Bool
unfolding starts_with
ends_with t suffix = starts_with (reverse t) (reverse suffix)

-- What follows the prefix, if the text begins with it.
unfoldable pub strip_prefix : Text → Text → Option Text
strip_prefix t [] = some t
strip_prefix [] (p ∷ ps) = none
strip_prefix (c ∷ cs) (p ∷ ps) = let rest = strip_prefix cs ps in if c == p then rest else none

abbrev with_first : ℕ → Option (Text × Text) → Option (Text × Text)
with_first c none = none
with_first c (some (before, after)) = some (c ∷ before, after)

-- `split_once` at one character: what is before its first occurrence, and what is after.
unfoldable pub split_once : ℕ → Text → Option (Text × Text)
split_once sep [] = none
split_once sep (c ∷ cs) =
    let rest = split_once sep cs in if c == sep then some ([], cs) else with_first c rest

abbrev pub count : ℕ → Text → ℕ
count sep [] = 0
count sep (c ∷ cs) = (if c == sep then 1 else 0) + count sep cs

abbrev pub contains : ℕ → Text → Bool
contains sep = any (λ c. c == sep)

abbrev onto_first : ℕ → List Text → List Text
onto_first c [] = []
onto_first c (part ∷ parts) = (c ∷ part) ∷ parts

-- `split` at one character: what stands between its occurrences, the ends included.
unfoldable pub split : ℕ → Text → List Text
split sep [] = [] ∷ []
split sep (c ∷ cs) = let rest = split sep cs in if c == sep then [] ∷ rest else onto_first c rest

abbrev pub first_of : List Text → Text
first_of [] = []
first_of (part ∷ parts) = part
