-- ===== src/Firewall/Weighing.antt =====
-- A concrete arbitration, which shows that the interface can be met: the highest weight among the
-- matching permits is compared with that among the matching blocks.
use Prim.Native.Nat.{bit_and}
use mathlib.Core.Path.{subst}
use kwik_proxy_secure.Prelude.{
  ℕ, zero, suc, ◌-◌, ◌/◌, ◌^◌, ◌≤◌, ◌<◌, Text, text_eq, Bool, true, false, ◌&&◌, List, [], ◌∷◌, ◌≡◌,
  ◌==◌, Member, refl, sym, ◌∙◌, ltb, if◌then◌else◌, Bool-cases, inl, inr, arith,
}
use kwik_proxy_secure.Wfp.{
  Layer, Filter, Action, permit, block, Condition, remote_v4, remote_v6, remote_port, protocol,
  app_id, local_interface,
}
use kwik_proxy_secure.Firewall.Arbitration.{Arbitration, matches}

pub record Packet : Type 0 where
  pub layer : Layer
  pub remote : ℕ
  pub port : ℕ
  pub proto : ℕ
  pub app : Text
  pub luid : ℕ

unfoldable pub holds : Condition → Packet → Bool
unfolding text_eq
holds (remote_v4 addr mask) p = bit_and p.remote mask == bit_and addr mask
holds (remote_v6 addr prefix) p = p.remote / 2 ^ (128 - prefix) == addr / 2 ^ (128 - prefix)
holds (remote_port port) p = p.port == port
holds (protocol proto) p = p.proto == proto
holds (app_id blob) p = text_eq p.app blob
holds (local_interface luid) p = p.luid == luid

abbrev hits : Filter → Packet → Bool
hits = matches (λ p. p.layer) holds

abbrev action_eq : Action → Action → Bool
action_eq permit permit = true
action_eq block block = true
action_eq _ _ = false

counts : Action → Filter → Packet → Bool
counts a f p = hits f p && action_eq f.action a

-- One more than the highest weight among the filters of an action that match, or 0.
top : Action → List Filter → Packet → ℕ
unfolding counts
top a [] p = 0
top a (f ∷ fs) p =
    let below = top a fs p in
    if counts a f p && ltb below (suc f.weight) then suc f.weight else below

unfoldable pub classify : List Filter → Packet → Action
unfolding top
classify fs p = if ltb (top permit fs p) (top block fs p) then block else permit

and_parts : (b c : Bool) → (b && c) ≡ true → (b ≡ true) × (c ≡ true)
and_parts true true e = (refl, refl)
and_parts true false e = cc
and_parts false c e = cc

action_eq_sound : (a b : Action) → action_eq a b ≡ true → a ≡ b
action_eq_sound permit permit e = refl
action_eq_sound block block e = refl
action_eq_sound permit block e = cc
action_eq_sound block permit e = cc

action_eq_refl : (a : Action) → action_eq a a ≡ true
action_eq_refl permit = refl
action_eq_refl block = refl

counts_of : (f : Filter) (p : Packet) → hits f p ≡ true → counts f.action f p ≡ true
unfolding counts
counts_of f p h = rw (h, action_eq_refl f.action)

counts_sound :
    (a : Action) (f : Filter) (p : Packet)
    → counts a f p ≡ true
    → (hits f p ≡ true) × (f.action ≡ a)
unfolding counts
counts_sound a f p e =
    let (h, same) = and_parts (hits f p) _ e in (h, action_eq_sound f.action a same)

top-cons :
    (a : Action) (f : Filter) (fs : List Filter) (p : Packet)
    → top a (f ∷ fs) p
      ≡ (if counts a f p && ltb (top a fs p) (suc f.weight) then suc f.weight else top a fs p)
unfolding top
top-cons a f fs p = refl

lt_top_head :
    (a : Action) (f : Filter) (fs : List Filter) (p : Packet)
    → counts a f p ≡ true
    → f.weight < top a (f ∷ fs) p
lt_top_head a f fs p h = ground (arith, top-cons a f fs p)

lt_top :
    (a : Action) (fs : List Filter) (f : Filter) (p : Packet)
    → Member f fs
    → counts a f p ≡ true
    → f.weight < top a fs p
lt_top a [] f p m h = elim m [ ]
lt_top a (g ∷ fs) f p (inl same) h =
    subst (λ x. x.weight < top a (g ∷ fs) p) same
      (lt_top_head a g fs p (subst (λ x. counts a x p ≡ true) (sym same) h))
lt_top a (g ∷ fs) f p (inr m) h = ground (arith, top-cons a g fs p, lt_top a fs f p m h)

abbrev Attained : Action → List Filter → Packet → ℕ → Type 0
Attained a fs p n =
    (g : Filter) × Member g fs × (hits g p ≡ true) × (g.action ≡ a) × (n ≡ suc g.weight)

top-Attained :
    (a : Action) (fs : List Filter) (p : Packet) → 0 < top a fs p → Attained a fs p (top a fs p)
unfolding top
top-Attained a [] p h = absurd (omega arith)
top-Attained a (f ∷ fs) p h = elim (Bool-cases (counts a f p && ltb (top a fs p) (suc f.weight))) [
  | inl wins ↦
      let (hit, act) = counts_sound a f p (and_parts (counts a f p) _ wins).0 in
      (f, inl refl, hit, act, ground (arith, top-cons a f fs p))
  | inr loses ↦
      let same : top a (f ∷ fs) p ≡ top a fs p = ground (arith, top-cons a f fs p) in
      let (g, m, hit, act, n) = top-Attained a fs p (omega arith) in (g, inr m, hit, act, same ∙ n)
]

classify_permit :
    (fs : List Filter) (p : Packet) → classify fs p ≡ permit → top block fs p ≤ top permit fs p
unfolding classify
classify_permit fs p e = shown (top permit fs p) (top block fs p) e
  where
    shown : (a b : ℕ) → (if ltb a b then block else permit) ≡ permit → b ≤ a
    shown a b h = ground arith

permit_classify :
    (fs : List Filter) (p : Packet) → top block fs p ≤ top permit fs p → classify fs p ≡ permit
unfolding classify
permit_classify fs p h = shown (top permit fs p) (top block fs p) h
  where
    shown : (a b : ℕ) → b ≤ a → (if ltb a b then block else permit) ≡ permit
    shown a b h = ground arith

pub overruled :
    (fs : List Filter) (f : Filter) (p : Packet)
    → Member f fs
    → hits f p ≡ true
    → f.action ≡ block
    → classify fs p ≡ permit
    → (g : Filter) × Member g fs × (hits g p ≡ true) × (g.action ≡ permit) × (f.weight ≤ g.weight)
overruled fs f p m h b e =
    let heavy : f.weight < top block fs p =
      lt_top block fs f p m (subst (λ a. counts a f p ≡ true) b (counts_of f p h)) in
    let ahead = classify_permit fs p e in
    let (g, mg, hg, ag, n) = top-Attained permit fs p (omega arith) in (g, mg, hg, ag, omega arith)

pub granted :
    (fs : List Filter) (f : Filter) (p : Packet)
    → Member f fs
    → hits f p ≡ true
    → f.action ≡ permit
    → ((g : Filter) → Member g fs → hits g p ≡ true → g.action ≡ block → g.weight < f.weight)
    → classify fs p ≡ permit
granted fs f p m h b light =
    let heavy : f.weight < top permit fs p =
      lt_top permit fs f p m (subst (λ a. counts a f p ≡ true) b (counts_of f p h)) in
    permit_classify fs p (below (top block fs p) refl heavy)
  where
    below : (n : ℕ) → top block fs p ≡ n → f.weight < top permit fs p → n ≤ top permit fs p
    below zero e heavy = omega arith
    below (suc n) e heavy =
        let (g, mg, hg, ag, k) = top-Attained block fs p (omega arith) in
        let less = light g mg hg ag in omega arith

abbrev pub weighing : Arbitration
weighing = record {
  Packet = Packet;
  layer_of = λ p. p.layer;
  holds = holds;
  classify = classify;
  overruled = overruled;
  granted = granted;
}
