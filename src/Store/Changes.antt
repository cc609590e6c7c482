-- ===== src/Store/Changes.antt =====
-- src-tauri/src/config/routing_store.rs: what is found after an entry or a file is taken away or changed.
use mathlib.Core.Path.{subst, ap}
use kwik_proxy_secure.Prelude.{
  ◌≤◌, Text, text_eq, length, any, false, not, List, [], ◌∷◌, Option, none, some, if◌then◌else◌,
  ◌==◌, ◌≡◌, inl, inr, refl, sym, arith, All, Bool-cases,
}
use kwik_proxy_secure.Profile.{RoutingProfileEntry}
use kwik_proxy_secure.Store.{has_id, find_entry, retain_others, change_entry, put_file, delete_file}
use kwik_proxy_secure.Store.Keys.{
  text_eq-true, IsFresh, HasDistinctIds, lookup, HasDistinctNames, text_eq_trans, text_eq_symm,
  text_eq_apart,
}

pub find_entry-retain_others :
    (k id : Text) (es : List RoutingProfileEntry)
    → find_entry k (retain_others id es) ≡ (if text_eq id k then none else find_entry k es)
unfolding retain_others
find_entry-retain_others k id [] = ground arith
find_entry-retain_others k id (e ∷ es) = elim (Bool-cases (text_eq e.id id)) [
  | inl same ↦ ground (arith, same, text_eq_trans e.id id k same, find_entry-retain_others k id es)
  | inr other ↦ elim (Bool-cases (text_eq e.id k)) [
    | inl found ↦
        let apart : text_eq id k ≡ false = text_eq_apart e.id id k other found in
        ground (arith, other, found, apart)
    | inr missed ↦ ground (arith, other, missed, find_entry-retain_others k id es)
  ]
]

pub any-retain_others :
    (k id : Text) (es : List RoutingProfileEntry)
    → any (has_id k) (retain_others id es) ≡ (if text_eq id k then false else any (has_id k) es)
unfolding retain_others
any-retain_others k id [] = ground arith
any-retain_others k id (e ∷ es) = elim (Bool-cases (text_eq e.id id)) [
  | inl same ↦ ground (arith, same, text_eq_trans e.id id k same, any-retain_others k id es)
  | inr other ↦ elim (Bool-cases (text_eq e.id k)) [
    | inl found ↦
        let apart : text_eq id k ≡ false = text_eq_apart e.id id k other found in
        ground (arith, other, found, apart)
    | inr missed ↦ ground (arith, other, missed, any-retain_others k id es)
  ]
]

pub retain_others-All :
    (P : RoutingProfileEntry → Type 0) (id : Text) (es : List RoutingProfileEntry)
    → All P es
    → All P (retain_others id es)
unfolding retain_others
retain_others-All P id [] hs = tt
retain_others-All P id (e ∷ es) hs = ground (arith, retain_others-All P id es hs.1, hs.0)

pub retain_others-HasDistinctIds :
    (id : Text) (es : List RoutingProfileEntry)
    → HasDistinctIds es
    → HasDistinctIds (retain_others id es)
unfolding retain_others
retain_others-HasDistinctIds id [] hs = tt
retain_others-HasDistinctIds id (e ∷ es) hs =
    ground (arith, retain_others-HasDistinctIds id es hs.1, hs.0, any-retain_others e.id id es)

length-retain_others :
    (id : Text) (es : List RoutingProfileEntry) → length (retain_others id es) ≤ length es
unfolding retain_others
length-retain_others id [] = ground arith
length-retain_others id (e ∷ es) = ground (arith, length-retain_others id es)

-- The length tells whether an entry was there.
pub retain_others-IsFresh :
    (id : Text) (es : List RoutingProfileEntry)
    → (length (retain_others id es) == length es) ≡ not (any (has_id id) es)
unfolding retain_others
retain_others-IsFresh id [] = refl
retain_others-IsFresh id (e ∷ es) =
    ground (arith, length-retain_others id es, retain_others-IsFresh id es)

abbrev pub changed_by :
    (RoutingProfileEntry → RoutingProfileEntry)
    → Option RoutingProfileEntry
    → Option RoutingProfileEntry
changed_by f none = none
changed_by f (some e) = some (f e)

module _ (f : RoutingProfileEntry → RoutingProfileEntry)
    (keeps : (e : RoutingProfileEntry) → (f e).id ≡ e.id) where
  keeps_eq : (e : RoutingProfileEntry) (k : Text) → text_eq (f e).id k ≡ text_eq e.id k
  keeps_eq e k = ap (λ x. text_eq x k) (keeps e)

  pub find_entry-change_entry :
      (k id : Text) (es : List RoutingProfileEntry)
      → find_entry k (change_entry f id es)
        ≡ (if text_eq id k then changed_by f (find_entry k es) else find_entry k es)
  unfolding change_entry
  find_entry-change_entry k id [] = ground arith
  find_entry-change_entry k id (e ∷ es) = elim (Bool-cases (text_eq e.id id)) [
    | inl same ↦ ground (arith, same, text_eq_trans e.id id k same, keeps_eq e k)
    | inr other ↦ elim (Bool-cases (text_eq e.id k)) [
      | inl found ↦
          let apart : text_eq id k ≡ false = text_eq_apart e.id id k other found in
          ground (arith, other, found, apart)
      | inr missed ↦ ground (arith, other, missed, find_entry-change_entry k id es)
    ]
  ]

  pub any-change_entry :
      (k id : Text) (es : List RoutingProfileEntry)
      → any (has_id k) (change_entry f id es) ≡ any (has_id k) es
  unfolding change_entry
  any-change_entry k id [] = refl
  any-change_entry k id (e ∷ es) = ground (arith, any-change_entry k id es, keeps_eq e k)

  pub change_entry-All :
      (P : RoutingProfileEntry → Type 0) (id : Text) (es : List RoutingProfileEntry)
      → ((e : RoutingProfileEntry) → P e → P (f e))
      → All P es
      → All P (change_entry f id es)
  unfolding change_entry
  change_entry-All P id [] step hs = tt
  change_entry-All P id (e ∷ es) step hs =
      ground (arith, change_entry-All P id es step hs.1, hs.0, hs.1, step e hs.0)

  pub change_entry-HasDistinctIds :
      (id : Text) (es : List RoutingProfileEntry)
      → HasDistinctIds es
      → HasDistinctIds (change_entry f id es)
  unfolding change_entry
  change_entry-HasDistinctIds id [] hs = tt
  change_entry-HasDistinctIds id (e ∷ es) hs = elim (Bool-cases (text_eq e.id id)) [
    | inl same ↦ ground (arith, same, hs.1, subst (λ x. IsFresh x es) (sym (keeps e)) hs.0)
    | inr other ↦
        ground
          (arith, other, change_entry-HasDistinctIds id es hs.1, hs.0, any-change_entry e.id id es)
  ]

-- The directory.
pub lookup-put_file :
    (k name text : Text) (fs : List (Text × Text))
    → lookup k (put_file name text fs) ≡ (if text_eq name k then some text else lookup k fs)
lookup-put_file k name text [] = refl
lookup-put_file k name text ((n, t) ∷ fs) = elim (Bool-cases (text_eq n name)) [
  | inl same ↦ ground (arith, same, text_eq_trans n name k same)
  | inr other ↦ elim (Bool-cases (text_eq n k)) [
    | inl found ↦
        let apart : text_eq name k ≡ false = text_eq_apart n name k other found in
        ground (arith, other, found, apart)
    | inr missed ↦ ground (arith, other, missed, lookup-put_file k name text fs)
  ]
]

pub lookup-delete_file :
    (k name : Text) (fs : List (Text × Text))
    → lookup k (delete_file name fs) ≡ (if text_eq name k then none else lookup k fs)
unfolding delete_file
lookup-delete_file k name [] = ground arith
lookup-delete_file k name ((n, t) ∷ fs) = elim (Bool-cases (text_eq n name)) [
  | inl same ↦ ground (arith, same, text_eq_trans n name k same, lookup-delete_file k name fs)
  | inr other ↦ elim (Bool-cases (text_eq n k)) [
    | inl found ↦
        let apart : text_eq name k ≡ false = text_eq_apart n name k other found in
        ground (arith, other, found, apart)
    | inr missed ↦ ground (arith, other, missed, lookup-delete_file k name fs)
  ]
]

pub put_file-HasDistinctNames :
    (name text : Text) (fs : List (Text × Text))
    → HasDistinctNames fs
    → HasDistinctNames (put_file name text fs)
put_file-HasDistinctNames name text [] h = (refl, tt)
put_file-HasDistinctNames name text ((n, t) ∷ fs) h = elim (Bool-cases (text_eq n name)) [
  | inl same ↦
      ground (arith, same, h.1, subst (λ x. lookup x fs ≡ none) (text_eq-true n name same) h.0)
  | inr other ↦ ground (
    arith,
    other,
    put_file-HasDistinctNames name text fs h.1,
    h.0,
    text_eq_symm name n,
    lookup-put_file n name text fs,
  )
]

pub delete_file-HasDistinctNames :
    (name : Text) (fs : List (Text × Text))
    → HasDistinctNames fs
    → HasDistinctNames (delete_file name fs)
unfolding delete_file
delete_file-HasDistinctNames name [] h = tt
delete_file-HasDistinctNames name ((n, t) ∷ fs) h =
    ground (arith, delete_file-HasDistinctNames name fs h.1, h.0, lookup-delete_file n name fs)
