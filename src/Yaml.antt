-- ===== src/Yaml.antt =====
-- serde_yaml's `Mapping` and `Value`, as src-tauri/src/config/mihomo_config.rs edits them: every key that
-- it writes is a string. The order of the entries is that of serde_yaml, but for `remove_key`, which here keeps
-- the order of the others; nothing reads it.
pub mod Laws
use kwik_proxy_secure.Mihomo.Config.{
  Value, null, bool, number, string, sequence, mapping, tagged, Items, nil, cons, Mapping, end,
  entry, get, has_key, is_key, and_then, as_mapping,
}
use kwik_proxy_secure.Prelude.{
  ℕ, ◌+◌, Text, Bool, true, false, List, [], ◌∷◌, map, Option, none, some, if◌then◌else◌,
}

-- `map.insert(key, v)`: in the place of the key's entry, or at the end.
unfoldable pub insert : Text → Value → Mapping → Mapping
insert key v end = entry (string key) v end
insert key v (entry k w rest) =
    let later = insert key v rest in if is_key key k then entry k v rest else entry k w later

unfoldable pub remove_key : Text → Mapping → Mapping
remove_key key end = end
remove_key key (entry k w rest) =
    let later = remove_key key rest in if is_key key k then later else entry k w later

-- A change through `map.get_mut(key)`.
unfoldable pub update : Text → (Value → Value) → Mapping → Mapping
update key change end = end
update key change (entry k w rest) =
    let later = update key change rest in
    if is_key key k then entry k (change w) rest else entry k w later

-- `map.entry(key).or_insert_with(|| v)`.
unfoldable pub or_insert : Text → Value → Mapping → Mapping
unfolding get insert
or_insert key v m = if has_key m key then m else insert key v m

unfoldable pub remove_keys : List Text → Mapping → Mapping
unfolding remove_key
remove_keys [] m = m
remove_keys (name ∷ names) m = remove_keys names (remove_key name m)

abbrev pub entries : Mapping → ℕ
entries end = 0
entries (entry k v rest) = 1 + entries rest

-- A sequence as a list, and back.
abbrev pub listed : Items → List Value
listed nil = []
listed (cons v rest) = v ∷ listed rest

abbrev pub items : List Value → Items
items [] = nil
items (v ∷ vs) = cons v (items vs)

abbrev pub strings : List Text → Value
strings ts = sequence (items (map string ts))

abbrev pub as_sequence : Value → Option (List Value)
as_sequence (sequence vs) = some (listed vs)
as_sequence (tagged tag v) = as_sequence v
as_sequence _ = none

abbrev pub as_u64 : Value → Option ℕ
as_u64 (number n) = some n
as_u64 (tagged tag v) = as_u64 v
as_u64 _ = none

-- A change through `as_mapping_mut` or `as_sequence_mut`; what is neither stays.
abbrev pub with_mapping : (Mapping → Mapping) → Value → Value
with_mapping change (mapping m) = mapping (change m)
with_mapping change (tagged tag v) = tagged tag (with_mapping change v)
with_mapping change v = v

abbrev pub with_sequence : (List Value → List Value) → Value → Value
with_sequence change (sequence vs) = sequence (items (change (listed vs)))
with_sequence change (tagged tag v) = tagged tag (with_sequence change v)
with_sequence change v = v

-- `Value::get` at a string.
unfoldable pub value_get : Text → Value → Option Value
unfolding get
value_get name v = and_then (get name) (as_mapping v)
