-- ===== src/Yaml/Laws.antt =====
-- src-tauri/src/config/mihomo_config.rs: what a lookup finds after an edit of a mapping, at the edited key
-- and at the others.
use mathlib.Core.Path.{subst}
use kwik_proxy_secure.Mihomo.Config.{
  Value, null, bool, number, string, sequence, mapping, tagged, Mapping, end, entry, get, is_key,
  unwrap_or,
}
use kwik_proxy_secure.Prelude.{
  Text, text_eq, text_eq_iff, text_eq_refl, Bool, true, false, not, List, [], ◌∷◌, all, All, Option,
  none, some, ◌≡◌, refl, ◌∙◌, arith, Bool-cases, Option-cases, inl, inr,
}
use kwik_proxy_secure.Yaml.{insert, remove_key, update, or_insert, remove_keys}

-- A key that is the one is not the other.
is_key-other :
    (j k : Text) (w : Value) → text_eq k j ≡ false → is_key k w ≡ true → is_key j w ≡ false
is_key-other j k (string s) e h = ground (arith, text_eq_iff s k, text_eq_iff s j, text_eq_iff k j)
is_key-other j k null e h = cc
is_key-other j k (bool b) e h = cc
is_key-other j k (number n) e h = cc
is_key-other j k (sequence s) e h = cc
is_key-other j k (mapping m) e h = cc
is_key-other j k (tagged t v) e h = cc

pub get-insert : (k : Text) (v : Value) (m : Mapping) → get k (insert k v m) ≡ some v
unfolding get insert
get-insert k v end = ground (arith, text_eq_refl k)
get-insert k v (entry w x rest) = ground (arith, get-insert k v rest)

pub get-insert_other :
    (j k : Text) (v : Value) (m : Mapping) → text_eq k j ≡ false → get j (insert k v m) ≡ get j m
unfolding get insert
get-insert_other j k v end e = ground arith
get-insert_other j k v (entry w x rest) e =
    let later = get-insert_other j k v rest e in
    elim (Bool-cases (is_key k w)) [
      | inl same ↦ let other = is_key-other j k w e same in ground arith
      | inr differs ↦ ground arith
    ]

pub get-remove_key : (k : Text) (m : Mapping) → get k (remove_key k m) ≡ none
unfolding get remove_key
get-remove_key k end = refl
get-remove_key k (entry w x rest) = ground (arith, get-remove_key k rest)

pub get-remove_key_other :
    (j k : Text) (m : Mapping) → text_eq k j ≡ false → get j (remove_key k m) ≡ get j m
unfolding get remove_key
get-remove_key_other j k end e = refl
get-remove_key_other j k (entry w x rest) e =
    let later = get-remove_key_other j k rest e in
    elim (Bool-cases (is_key k w)) [
      | inl same ↦ let other = is_key-other j k w e same in ground arith
      | inr differs ↦ ground arith
    ]

abbrev pub map_some : (Value → Value) → Option Value → Option Value
map_some f none = none
map_some f (some v) = some (f v)

pub get-update :
    (k : Text) (f : Value → Value) (m : Mapping) → get k (update k f m) ≡ map_some f (get k m)
unfolding get update
get-update k f end = refl
get-update k f (entry w x rest) = ground (arith, get-update k f rest)

pub get-update_other :
    (j k : Text) (f : Value → Value) (m : Mapping)
    → text_eq k j ≡ false
    → get j (update k f m) ≡ get j m
unfolding get update
get-update_other j k f end e = refl
get-update_other j k f (entry w x rest) e =
    let later = get-update_other j k f rest e in
    elim (Bool-cases (is_key k w)) [
      | inl same ↦ let other = is_key-other j k w e same in ground arith
      | inr differs ↦ ground arith
    ]

pub get-or_insert :
    (k : Text) (v : Value) (m : Mapping) → get k (or_insert k v m) ≡ some (unwrap_or v (get k m))
unfolding or_insert
get-or_insert k v m = elim (Option-cases (get k m)) [
  | inl absent ↦ ground (arith, get-insert k v m)
  | inr (w, there) ↦ ground arith
]

pub get-or_insert_other :
    (j k : Text) (v : Value) (m : Mapping) → text_eq k j ≡ false → get j (or_insert k v m) ≡ get j m
unfolding or_insert
get-or_insert_other j k v m e = ground (arith, get-insert_other j k v m e)

-- `j` is none of the keys.
abbrev pub is_none_of : List Text → Text → Bool
is_none_of keys j = all (λ k. not (text_eq k j)) keys

pub get-remove_keys_other :
    (j : Text) (names : List Text) (m : Mapping)
    → is_none_of names j ≡ true
    → get j (remove_keys names m) ≡ get j m
unfolding remove_keys
get-remove_keys_other j [] m e = refl
get-remove_keys_other j (name ∷ names) m e =
    get-remove_keys_other j names (remove_key name m) (ground arith)
    ∙ get-remove_key_other j name m (ground arith)

removed_stays :
    (j : Text) (names : List Text) (m : Mapping)
    → get j m ≡ none
    → get j (remove_keys names m) ≡ none
unfolding remove_keys
removed_stays j [] m e = e
removed_stays j (name ∷ names) m e =
    removed_stays j names (remove_key name m) (elim (Bool-cases (text_eq name j)) [
      | inl same ↦
          subst (λ k. get k (remove_key name m) ≡ none) ((text_eq_iff name j).0 same)
            (get-remove_key name m)
      | inr differs ↦ get-remove_key_other j name m differs ∙ e
    ])

pub get-remove_keys :
    (j : Text) (names : List Text) (m : Mapping)
    → is_none_of names j ≡ false
    → get j (remove_keys names m) ≡ none
unfolding remove_keys
get-remove_keys j [] m e = cc
get-remove_keys j (name ∷ names) m e = elim (Bool-cases (text_eq name j)) [
  | inl same ↦
      subst (λ k. get k (remove_keys (name ∷ names) m) ≡ none) ((text_eq_iff name j).0 same)
        (removed_stays name names (remove_key name m) (get-remove_key name m))
  | inr differs ↦ get-remove_keys j names (remove_key name m) (ground arith)
]

-- The key is none of those, one by one.
pub apart :
    (keys : List Text) (j : Text) → is_none_of keys j ≡ true → All (λ k. text_eq k j ≡ false) keys
apart [] j e = tt
apart (k ∷ keys) j e = (ground arith, apart keys j (ground arith))
