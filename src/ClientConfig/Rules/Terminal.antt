-- ===== src/ClientConfig/Rules/Terminal.antt =====
-- src-tauri/src/config/mihomo_config.rs: after `normalize_terminal_default` there is one catch-all rule, it
-- is the last one, and the other rules are the provider's.
use kwik_proxy_secure.ClientConfig.{direct, vpn, Bool, DefaultTraffic, explicit_target}
use kwik_proxy_secure.ClientConfig.Rules.{
  to_ascii_uppercase, trim, as_str, split, normalize_terminal_default, is_catch_all, with_terminal,
  rules_entry,
}
use kwik_proxy_secure.Mihomo.Config.{
  as_str, Value, string, sequence, nil, Mapping, get, and_then, unwrap_or,
}
use kwik_proxy_secure.Prelude.{
  negated, ◌||◌, trim, split, first_of, to_ascii_uppercase, keep-All, All-map, Text, codes, text_eq,
  true, false, not, List, [], ◌∷◌, ◌++◌, Option, none, some, ok, All, keep, ◌≡◌, refl, ap, ◌∙◌,
  arith,
}
use kwik_proxy_secure.Yaml.{update, as_sequence, with_sequence, listed, items}
use kwik_proxy_secure.Yaml.Laws.{
  get-update, get-or_insert, get-update_other, get-or_insert_other, map_some,
}

-- The rules of a document; a document without the section has none.
abbrev pub rules_in : Mapping → Option (List Value)
rules_in root = and_then as_sequence (some (unwrap_or (sequence nil) (get (codes "rules") root)))

listed-items : (vs : List Value) → listed (items vs) ≡ vs
listed-items [] = refl
listed-items (v ∷ vs) = ap (λ ws. v ∷ ws) (listed-items vs)

as_sequence-with_sequence :
    (change : List Value → List Value) (v : Value) (rules : List Value)
    → as_sequence v ≡ some rules
    → as_sequence (with_sequence change v) ≡ some (change rules)
as_sequence-with_sequence change (sequence vs) rules e =
    ground (arith, listed-items (change (listed vs)))
as_sequence-with_sequence change (Value.tagged tag v) rules e =
    as_sequence-with_sequence change v rules e
as_sequence-with_sequence change Value.null rules e = cc
as_sequence-with_sequence change (Value.bool b) rules e = cc
as_sequence-with_sequence change (Value.number n) rules e = cc
as_sequence-with_sequence change (Value.string s) rules e = cc
as_sequence-with_sequence change (Value.mapping m) rules e = cc

-- The first field of the rule is MATCH or FINAL, whatever its case and the space around it.
abbrev pub ends_all : Value → Bool
ends_all rule = elim (as_str rule) [
  | none ↦ false
  | some raw ↦
      text_eq (to_ascii_uppercase (trim (first_of (split b',' raw)))) (codes "MATCH")
      || text_eq (to_ascii_uppercase (trim (first_of (split b',' raw)))) (codes "FINAL")
]

-- The rules that end nothing, and a MATCH to the target after them.
abbrev pub ended : Text → List Value → List Value
ended target rules =
    keep (λ rule. not (ends_all rule)) rules ++ string (codes "MATCH," ++ target) ∷ []

-- The outbound of an explicit choice for unmatched traffic.
pub data IsChoice (proxy_target : Text) : DefaultTraffic → Text → Type 0 where
  to_proxy : IsChoice proxy_target vpn proxy_target
  to_direct : IsChoice proxy_target direct (codes "DIRECT")

choice_lem :
    (proxy_target : Text) (traffic : DefaultTraffic) (target : Text)
    → IsChoice proxy_target traffic target
    → explicit_target traffic proxy_target ≡ some target
choice_lem proxy_target traffic target to_proxy = refl
choice_lem proxy_target traffic target to_direct = refl

-- No rule is a catch-all but the last, which sends to the target.
pub record IsTerminated (target : Text) (before after : List Value) : Type 0 where
  pub specific : List Value
  pub split : after ≡ specific ++ string (codes "MATCH," ++ target) ∷ []
  pub provider_order : specific ≡ keep (λ rule. not (ends_all rule)) before
  pub none_earlier : All (λ rule. ends_all rule ≡ false) specific
  pub last_ends : ends_all (string (codes "MATCH," ++ target)) ≡ true

match_lem : (target : Text) → ends_all (string (codes "MATCH," ++ target)) ≡ true
unfolding is_catch_all
match_lem target = refl

with_terminal_lem :
    (target : Text) (rules : List Value) → IsTerminated target rules (with_terminal target rules)
unfolding is_catch_all
with_terminal_lem target rules = record {
  specific = keep (λ rule. not (ends_all rule)) rules;
  split = refl;
  provider_order = refl;
  none_earlier =
      All-map _ _ _ (λ rule h. negated (ends_all rule) h)
        (keep-All (λ rule. not (ends_all rule)) rules);
  last_ends = match_lem target;
}

entry_lem :
    (root : Mapping) → and_then as_sequence (get (codes "rules") (rules_entry root)) ≡ rules_in root
entry_lem root = ap (and_then as_sequence) (get-or_insert (codes "rules") (sequence nil) root)

changed_lem :
    (change : List Value → List Value) (before : List Value) (o : Option Value)
    → and_then as_sequence o ≡ some before
    → and_then as_sequence (some (unwrap_or (sequence nil) (map_some (with_sequence change) o)))
      ≡ some (change before)
changed_lem change before none e = cc
changed_lem change before (some v) e = as_sequence-with_sequence change v before e

-- An edit of the rules, which are made if there are none.
pub edited_rules :
    (change : List Value → List Value) (root : Mapping) (before : List Value)
    → rules_in root ≡ some before
    → rules_in (update (codes "rules") (with_sequence change) (rules_entry root))
      ≡ some (change before)
edited_rules change root before there =
    ap (λ o. and_then as_sequence (some (unwrap_or (sequence nil) o)))
      (get-update (codes "rules") (with_sequence change) (rules_entry root))
    ∙ changed_lem change before (get (codes "rules") (rules_entry root)) (entry_lem root ∙ there)

-- For an explicit choice, a document whose rules are a sequence, or are missing, is always normalized:
-- its rules are then the ones whose first field is not MATCH or FINAL, in their order, and one MATCH,
-- which sends to the given proxy target for `vpn` and to DIRECT for `direct`; every other section is as
-- it was.
pub normalize_terminal_default-IsTerminated :
    (root : Mapping) (traffic : DefaultTraffic) (proxy_target target key : Text)
    (before : List Value)
    → rules_in root ≡ some before
    → IsChoice proxy_target traffic target
    → text_eq (codes "rules") key ≡ false
    → (root' : Mapping) × (normalize_terminal_default root traffic proxy_target ≡ ok root')
      × ((after : List Value) × (rules_in root' ≡ some after) × IsTerminated target before after)
      × (get key root' ≡ get key root)
unfolding normalize_terminal_default
normalize_terminal_default-IsTerminated root traffic proxy_target target key before there choice
      other =
    let chosen = choice_lem proxy_target traffic target choice in
    let edited = update (codes "rules") (with_sequence (with_terminal target)) (rules_entry root) in
    let read = entry_lem root ∙ there in
    (
      edited,
      ground (arith, read, chosen),
      (
        with_terminal target before,
        edited_rules (with_terminal target) root before there,
        with_terminal_lem target before,
      ),
      get-update_other key (codes "rules") (with_sequence (with_terminal target)) (rules_entry root)
            other
          ∙ get-or_insert_other key (codes "rules") (sequence nil) root other,
    )
