-- ===== src/Store/Keys.antt =====
-- src-tauri/src/config/routing_store.rs: what is found under an id after each change of the list of
-- entries, and under a name after each change of the directory.
use mathlib.Core.Path.{subst, ap}
use kwik_proxy_secure.Prelude.{
  Text, text_eq, text_eq_iff, any, true, false, ◌||◌, List, [], ◌∷◌, ◌++◌, Option, none, some,
  if◌then◌else◌, ◌≡◌, inl, inr, refl, sym, ◌∙◌, arith, All, Bool-cases, is_some,
}
use kwik_proxy_secure.Profile.{RoutingProfileEntry}
use kwik_proxy_secure.Store.{has_id, find_entry}

-- No entry has the id.
abbrev pub IsFresh : Text → List RoutingProfileEntry → Type 0
IsFresh id es = any (has_id id) es ≡ false

abbrev pub HasDistinctIds : List RoutingProfileEntry → Type 0
HasDistinctIds [] = Unit
HasDistinctIds (e ∷ es) = IsFresh e.id es × HasDistinctIds es

-- The text of a file, if there is one.
abbrev pub lookup : Text → List (Text × Text) → Option Text
lookup name [] = none
lookup name ((n, t) ∷ fs) = if text_eq n name then some t else lookup name fs

abbrev pub HasDistinctNames : List (Text × Text) → Type 0
HasDistinctNames [] = Unit
HasDistinctNames ((n, t) ∷ fs) = (lookup n fs ≡ none) × HasDistinctNames fs

pub text_eq-true : (s t : Text) → text_eq s t ≡ true → s ≡ t
text_eq-true s t = (text_eq_iff s t).0

pub text_eq_trans : (s t u : Text) → text_eq s t ≡ true → text_eq s u ≡ text_eq t u
text_eq_trans s t u h = ap (λ x. text_eq x u) (text_eq-true s t h)

pub text_eq_symm : (s t : Text) → text_eq s t ≡ text_eq t s
unfolding text_eq
text_eq_symm [] [] = refl
text_eq_symm [] (d ∷ t) = refl
text_eq_symm (c ∷ s) [] = refl
text_eq_symm (c ∷ s) (d ∷ t) = ground (arith, text_eq_symm s t)

-- A text that equals the second and not the first keeps the two apart.
pub text_eq_apart : (s t u : Text) → text_eq s t ≡ false → text_eq s u ≡ true → text_eq t u ≡ false
text_eq_apart s t u other found = text_eq_symm t u ∙ sym (text_eq_trans s u t found) ∙ other

pub find_entry-IsFresh :
    (k : Text) (es : List RoutingProfileEntry) → IsFresh k es → find_entry k es ≡ none
find_entry-IsFresh k [] h = refl
find_entry-IsFresh k (e ∷ es) h = ground (arith, h, find_entry-IsFresh k es)

pub is_some-find_entry :
    (k : Text) (es : List RoutingProfileEntry) → is_some (find_entry k es) ≡ any (has_id k) es
is_some-find_entry k [] = refl
is_some-find_entry k (e ∷ es) = ground (arith, is_some-find_entry k es)

pub find_entry-id :
    (k : Text) (es : List RoutingProfileEntry) (e : RoutingProfileEntry)
    → find_entry k es ≡ some e
    → e.id ≡ k
find_entry-id k [] e h = cc
find_entry-id k (x ∷ es) e h = elim (Bool-cases (text_eq x.id k)) [
  | inl same ↦ ground (arith, h, same, text_eq-true x.id k same)
  | inr other ↦ find_entry-id k es e (ground (arith, h, other))
]

pub find_entry-All :
    (P : RoutingProfileEntry → Type 0) (k : Text) (es : List RoutingProfileEntry)
    (e : RoutingProfileEntry)
    → All P es
    → find_entry k es ≡ some e
    → P e
find_entry-All P k [] e hs h = cc
find_entry-All P k (x ∷ es) e hs h = elim (Bool-cases (text_eq x.id k)) [
  | inl same ↦ subst P (ground (arith, h, same)) hs.0
  | inr other ↦ find_entry-All P k es e hs.1 (ground (arith, h, other))
]

-- Appending.
pub find_entry-append :
    (k : Text) (es : List RoutingProfileEntry) (e : RoutingProfileEntry)
    → IsFresh e.id es
    → find_entry k (es ++ e ∷ []) ≡ (if text_eq e.id k then some e else find_entry k es)
find_entry-append k [] e h = refl
find_entry-append k (x ∷ es) e h = elim (Bool-cases (text_eq x.id k)) [
  | inl same ↦
      let other : text_eq e.id k ≡ false =
        ground (arith, h, text_eq_trans x.id k e.id same, text_eq_symm e.id k) in
      ground (arith, same, other)
  | inr other ↦ ground (arith, other, find_entry-append k es e (ground (arith, h)))
]

pub any-append :
    (k : Text) (es : List RoutingProfileEntry) (e : RoutingProfileEntry)
    → any (has_id k) (es ++ e ∷ []) ≡ (any (has_id k) es || text_eq e.id k)
any-append k [] e = ground arith
any-append k (x ∷ es) e = ground (arith, any-append k es e)

pub HasDistinctIds-append :
    (es : List RoutingProfileEntry) (e : RoutingProfileEntry)
    → HasDistinctIds es
    → IsFresh e.id es
    → HasDistinctIds (es ++ e ∷ [])
HasDistinctIds-append [] e hs h = (refl, tt)
HasDistinctIds-append (x ∷ es) e hs h = (
  ground (arith, hs.0, h, any-append x.id es e, text_eq_symm e.id x.id),
  HasDistinctIds-append es e hs.1 (ground (arith, h)),
)
