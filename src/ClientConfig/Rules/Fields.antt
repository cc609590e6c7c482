-- ===== src/ClientConfig/Rules/Fields.antt =====
-- src-tauri/src/config/mihomo_config.rs: no entry of an application rule or of a profile can write more
-- than its own field of a rule.
use mathlib.Core.Path.{subst}
use kwik_proxy_secure.ClientConfig.{AppRule}
use kwik_proxy_secure.ClientConfig.Rules.{app_rule_to_mihomo, target_of, matcher_of, joined}
use kwik_proxy_secure.Mihomo.Config.{and_then}
use kwik_proxy_secure.Prelude.{
  ◌≤◌, text_eq_iff, sym, ◌≢◌, if-holds, Text, codes, text_eq, Bool, true, false, ◌||◌, List, [],
  ◌∷◌, Option, none, some, any, ◌≡◌, refl, ap, ◌∙◌, arith, ◌⊎◌, inl, inr, split, trim, contains,
  is_control, strip_prefix, any-trim, any-strip_prefix, any-concat, split_whole, split-concat, ◌==◌,
  if◌then◌else◌, Option-cases, len, ltb,
}

-- A text that can stand in one field of a rule.
abbrev pub IsClean : Text → Type 0
IsClean s = (contains b',' s ≡ false) × (any is_control s ≡ false)

-- The rule reads as these fields, on one line.
abbrev pub IsRule : List Text → Text → Type 0
IsRule fields rule = (split b',' rule ≡ fields) × (any is_control rule ≡ false)

pub whole-IsRule : (s : Text) → IsClean s → IsRule (s ∷ []) s
whole-IsRule s (no_comma, no_control) = (split_whole b',' s no_comma, no_control)

pub joined-IsRule :
    (s rest : Text) (fields : List Text)
    → IsClean s
    → IsRule fields rest
    → IsRule (s ∷ fields) (joined s rest)
joined-IsRule s rest fields (no_comma, no_control) (parts, clean) = (
  split-concat b',' s rest no_comma ∙ ap (λ ps. s ∷ ps) parts,
  ground (arith, any-concat is_control s (b',' ∷ rest)),
)

pub three_fields :
    (kind value action : Text)
    → IsClean kind
    → IsClean value
    → IsClean action
    → IsRule (kind ∷ value ∷ action ∷ []) (joined kind (joined value action))
three_fields kind value action k v a =
    joined-IsRule kind _ _ k (joined-IsRule value _ _ v (whole-IsRule action a))

pub trim-IsClean : (s : Text) → IsClean s → IsClean (trim s)
trim-IsClean s (no_comma, no_control) =
    (any-trim (λ c. c == b',') s no_comma, any-trim is_control s no_control)

exe_tests :
    (exe : Text)
    → any (λ c. c == b',' || c == b'\r' || c == b'\n' || is_control c) exe ≡ false
    → IsClean exe
exe_tests [] e = (refl, refl)
exe_tests (c ∷ s) e = let rest = exe_tests s (ground arith) in (ground arith, ground arith)

matcher_lem : (exe : Text) → IsClean (matcher_of exe)
matcher_lem exe =
    if-holds IsClean (contains b'\\' exe || contains b'/' exe) (codes "PROCESS-PATH")
      (codes "PROCESS-NAME")
      (λ (e : (contains b'\\' exe || contains b'/' exe) ≡ true). (refl, refl))
      (λ (e : (contains b'\\' exe || contains b'/' exe) ≡ false). (refl, refl))

one_of_two :
    (b : Bool) (x t : Text) (rest : Option Text)
    → IsClean x
    → (rest ≡ some t → IsClean t)
    → (if b then some x else rest) ≡ some t
    → IsClean t
one_of_two true x t rest clean other e = let same : x ≡ t = ground arith in subst IsClean same clean
one_of_two false x t rest clean other e = other e

target_lem :
    (action target t : Text) → IsClean target → target_of action target ≡ some t → IsClean t
target_lem action target t clean = one_of_two (text_eq action (codes "proxy")) target t _ clean (
    one_of_two (text_eq action (codes "direct")) (codes "DIRECT") t _ (refl, refl)
      (one_of_two (text_eq action (codes "block")) (codes "REJECT") t none (refl, refl) (λ e. cc)))

written :
    (bad : Bool) (kind exe t rule : Text) (target : Option Text)
    → target ≡ some t
    → (if bad then none else and_then (λ t. some (joined kind (joined exe t))) target) ≡ some rule
    → (bad ≡ false) × (joined kind (joined exe t) ≡ rule)
written true kind exe t rule target e h = cc
written false kind exe t rule none e h = cc
written false kind exe t rule (some t') e h = (refl, ground arith)

unknown_lem :
    (bad : Bool) (kind exe rule : Text) (target : Option Text)
    → target ≡ none
    → (if bad then none else and_then (λ t. some (joined kind (joined exe t))) target) ≢ some rule
unknown_lem true kind exe rule target e h = cc
unknown_lem false kind exe rule none e h = cc
unknown_lem false kind exe rule (some t') e h = cc

abbrev is_bad_exe : Text → Bool
is_bad_exe exe =
    text_eq exe []
    || ltb 1024 (len exe)
    || any (λ c. c == b',' || c == b'\r' || c == b'\n' || is_control c) exe

-- A path is matched as a path, a name as a name.
abbrev pub IsMatcher : Text → Text → Type 0
IsMatcher exe matcher =
    ((any (λ c. c == b'\\' || c == b'/') exe ≡ true) × (matcher ≡ codes "PROCESS-PATH"))
    ⊎ ((any (λ c. c == b'\\' || c == b'/') exe ≡ false) × (matcher ≡ codes "PROCESS-NAME"))

-- The outbound of the three actions.
abbrev pub IsOutbound : Text → Text → Text → Type 0
IsOutbound target action outbound =
    ((action ≡ codes "proxy") × (outbound ≡ target))
    ⊎ ((action ≡ codes "direct") × (outbound ≡ codes "DIRECT"))
    ⊎ ((action ≡ codes "block") × (outbound ≡ codes "REJECT"))

separators :
    (exe : Text)
    → (contains b'\\' exe || contains b'/' exe) ≡ any (λ c. c == b'\\' || c == b'/') exe
separators [] = refl
separators (c ∷ s) = let rest = separators s in ground arith

matcher_of-IsMatcher : (exe : Text) → IsMatcher exe (matcher_of exe)
matcher_of-IsMatcher exe =
    if-holds (IsMatcher exe) (contains b'\\' exe || contains b'/' exe) (codes "PROCESS-PATH")
      (codes "PROCESS-NAME")
      (λ (e : (contains b'\\' exe || contains b'/' exe) ≡ true).
        inl (sym (separators exe) ∙ e, refl))
      (λ (e : (contains b'\\' exe || contains b'/' exe) ≡ false).
        inr (sym (separators exe) ∙ e, refl))

picked :
    (b : Bool) (x t : Text) (rest : Option Text)
    → (if b then some x else rest) ≡ some t
    → ((b ≡ true) × (t ≡ x)) ⊎ (rest ≡ some t)
picked true x t rest e = inl (refl, ground arith)
picked false x t rest e = inr e

target_of-IsOutbound :
    (action target t : Text) → target_of action target ≡ some t → IsOutbound target action t
target_of-IsOutbound action target t e =
    elim (picked (text_eq action (codes "proxy")) target t _ e) [
      | inl (named, same) ↦ inl ((text_eq_iff action (codes "proxy")).0 named, same)
      | inr e1 ↦ elim (picked (text_eq action (codes "direct")) (codes "DIRECT") t _ e1) [
        | inl (named, same) ↦ inr (inl ((text_eq_iff action (codes "direct")).0 named, same))
        | inr e2 ↦ elim (picked (text_eq action (codes "block")) (codes "REJECT") t none e2) [
          | inl (named, same) ↦ inr (inr ((text_eq_iff action (codes "block")).0 named, same))
          | inr unknown ↦ cc
        ]
      ]
    ]

-- Where the proxy's name has no comma and no control character, a rule for a program is made of
-- exactly three fields on one line, whatever the text that was stored for it: PROCESS-PATH for a text
-- with a slash or a backslash and PROCESS-NAME for others, the trimmed text, of 1 to 1024 bytes, and the
-- outbound of the action, the proxy's for `proxy`, DIRECT for `direct`, REJECT for `block`.
pub app_rule_to_mihomo-IsRule :
    (r : AppRule) (target rule : Text)
    → IsClean target
    → app_rule_to_mihomo r target ≡ some rule
    → (matcher t : Text) × IsMatcher (trim r.exe) matcher
      × IsOutbound target r.action t
      × (text_eq (trim r.exe) [] ≡ false)
      × (len (trim r.exe) ≤ 1024)
      × IsRule (matcher ∷ trim r.exe ∷ t ∷ []) rule
unfolding app_rule_to_mihomo
app_rule_to_mihomo-IsRule r target rule clean e =
    let exe = trim r.exe in
    elim (Option-cases (target_of r.action target)) [
      | inl unknown ↦ absurd (unknown_lem (is_bad_exe exe) (matcher_of exe) exe rule _ unknown e)
      | inr (t, known) ↦
          let (good, made) = written (is_bad_exe exe) (matcher_of exe) exe t rule _ known e in
          let fields =
            three_fields (matcher_of exe) exe t (matcher_lem exe) (exe_tests exe (ground arith))
              (target_lem r.action target t clean known) in
          (
            matcher_of exe,
            t,
            matcher_of-IsMatcher exe,
            target_of-IsOutbound r.action target t known,
            ground arith,
            ground arith,
            subst (IsRule (matcher_of exe ∷ exe ∷ t ∷ [])) made fields,
          )
    ]

pub strip_prefix-IsClean :
    (s prefix rest : Text) → IsClean s → strip_prefix s prefix ≡ some rest → IsClean rest
strip_prefix-IsClean s prefix rest clean e = (
  any-strip_prefix (λ c. c == b',') s prefix rest e clean.0,
  any-strip_prefix is_control s prefix rest e clean.1,
)
