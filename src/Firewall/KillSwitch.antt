-- ===== src/Firewall/KillSwitch.antt =====
-- src-tauri/src/bin/kwik_helper/firewall.rs: what the filters of a successful `enable` let through.
use mathlib.Core.Path.{subst}
use kwik_proxy_secure.Net.{Std}
use kwik_proxy_secure.Prelude.{
  ℕ, ◌≤◌, true, List, [], ◌∷◌, ◌++◌, none, some, Result-cases, ok, err, ◌≡◌, refl, sym, ◌∙◌, ap,
  inl, inr, All, Member, All-append, All-Member, Member-append_right, >>=-eq-ok, arith,
}
use kwik_proxy_secure.Wfp.{
  Error, Api, Layer, connect_v4, connect_v6, Filter, permit, block, WfpEngine, remote_v4, remote_v6,
}
use kwik_proxy_secure.Firewall.{
  EnableArgs, Firewall, add_base, add_exceptions, install, new_engine, enable_blocking,
  disable_blocking, heartbeat, loopback_v6, w_loopback,
}
use kwik_proxy_secure.Firewall.Expected.{Expected, rule}
use kwik_proxy_secure.Firewall.Install.{add_exceptions-Safe}
use kwik_proxy_secure.Firewall.Arbitration.{Arbitration, matches}

module _ (std : Std) (api : Api) (args : EnableArgs) where
  -- The four filters that stand in every kill switch, newest first.
  abbrev pub base_filters : List Filter
  base_filters =
      rule connect_v6 w_loopback permit (remote_v6 loopback_v6 128 ∷ [])
      ∷ rule connect_v4 w_loopback permit (remote_v4 0x7F00_0000 0xFF00_0000 ∷ [])
      ∷ rule connect_v6 0 block []
      ∷ rule connect_v4 0 block []
      ∷ []

  add_base_lem : (gs : List Filter) → add_base std api args [] ≡ ok gs → gs ≡ base_filters
  unfolding add_base
  add_base_lem gs e = ground arith

  base-Expected : All (Expected std api args) base_filters
  base-Expected = (
    Expected.loopback_six refl,
    (
      Expected.loopback_four refl,
      (Expected.fallback connect_v6 refl, (Expected.fallback connect_v4 refl, tt)),
    ),
  )

  -- A kill switch: the base filters, and above them only what is expected.
  pub record IsKillSwitch (engine : WfpEngine) : Type 0 where
    pub is_dynamic : engine.dynamic ≡ true
    pub extra : List Filter
    pub layout : engine.filters ≡ extra ++ base_filters
    pub expected : All (Expected std api args) engine.filters

  pub new_engine_lem :
      (engine : WfpEngine)
      → new_engine std api args ≡ ok engine
      → (install std api args [] ≡ ok engine.filters) × (engine.dynamic ≡ true)
  unfolding new_engine
  new_engine_lem engine e = (ground arith, ground arith)

  pub install_split :
      (fs : List Filter)
      → install std api args [] ≡ ok fs
      → (gs : List Filter) × (add_base std api args [] ≡ ok gs)
        × (add_exceptions std api args gs ≡ ok fs)
  unfolding install
  install_split fs e = >>=-eq-ok (add_base std api args []) (add_exceptions std api args) e

  pub new_engine-IsKillSwitch :
      (engine : WfpEngine) → new_engine std api args ≡ ok engine → IsKillSwitch engine
  new_engine-IsKillSwitch engine e =
      let (installed, dynamic) = new_engine_lem engine e in
      let (gs, based, rest) = install_split engine.filters installed in
      let base = add_base_lem gs based in
      let adds = add_exceptions-Safe std api args gs engine.filters rest in
      let shape : engine.filters ≡ adds.fresh ++ base_filters =
        adds.grown ∙ ap (λ l. adds.fresh ++ l) base in
      record {
        is_dynamic = dynamic;
        extra = adds.fresh;
        layout = shape;
        expected = subst (All (Expected std api args)) (sym shape) (
            All-append (Expected std api args) adds.fresh base_filters adds.expected base-Expected);
      }

  pub enable_blocking-IsKillSwitch :
      (now : ℕ) (fw fw' : Firewall)
      → enable_blocking std api args now fw ≡ (fw', ok tt)
      → (engine : WfpEngine) × (fw'.engine ≡ some engine) × IsKillSwitch engine
  unfolding enable_blocking
  enable_blocking-IsKillSwitch now fw fw' e = elim (Result-cases (new_engine std api args)) [
    | inl (engine, made) ↦ (engine, ground arith, new_engine-IsKillSwitch engine made)
    | inr (error, failed) ↦ absurd (ground arith)
  ]

  -- After a success, the engine in force is what the installation made of the arguments.
  pub enable_blocking-made :
      (now : ℕ) (fw fw' : Firewall)
      → enable_blocking std api args now fw ≡ (fw', ok tt)
      → (engine : WfpEngine) × (fw'.engine ≡ some engine) × (new_engine std api args ≡ ok engine)
  unfolding enable_blocking
  enable_blocking-made now fw fw' e = elim (Result-cases (new_engine std api args)) [
    | inl (engine, made) ↦ (engine, ground arith, made)
    | inr (error, failed) ↦ absurd (ground arith)
  ]

  pub enable_beats :
      (now : ℕ) (fw fw' : Firewall)
      → enable_blocking std api args now fw ≡ (fw', ok tt)
      → (fw'.last_heartbeat ≡ some now) × (fw'.watchdog_started ≡ true)
  unfolding enable_blocking
  enable_beats now fw fw' e = elim (Result-cases (new_engine std api args)) [
    | inl (engine, made) ↦ (ground arith, ground arith)
    | inr (error, failed) ↦ absurd (ground arith)
  ]

  -- If `enable` fails, no engine is left, the one that stood before included, and the heartbeat is
  -- as it was.
  pub enable-err :
      (now : ℕ) (fw fw' : Firewall) (error : Error)
      → enable_blocking std api args now fw ≡ (fw', err error)
      → (fw'.engine ≡ none)
        × (fw'.last_heartbeat ≡ fw.last_heartbeat)
        × (new_engine std api args ≡ err error)
  unfolding enable_blocking
  enable-err now fw fw' error e = elim (Result-cases (new_engine std api args)) [
    | inl (engine, made) ↦ absurd (ground arith)
    | inr (cause, failed) ↦ (ground arith, ground arith, ground arith)
  ]

  pub enable_err_engine :
      (now : ℕ) (fw : Firewall) (error : Error)
      → (enable_blocking std api args now fw).1 ≡ err error
      → (enable_blocking std api args now fw).0.engine ≡ none
  enable_err_engine now fw error e =
      (enable-err now fw (enable_blocking std api args now fw).0 error
        (ap (λ r. ((enable_blocking std api args now fw).0, r)) e)).0

  pub base-Member :
      (engine : WfpEngine) (f : Filter)
      → IsKillSwitch engine
      → Member f base_filters
      → Member f engine.filters
  base-Member engine f k m =
      subst (Member f) (sym k.layout) (Member-append_right f k.extra base_filters m)

  module _ (w : Arbitration) where
    open w use {Packet, layer_of, holds, classify}

    abbrev pub Hits : Filter → Packet → Type 0
    Hits f p = matches layer_of holds f p ≡ true

    -- A packet gets through only by a filter that the arguments call for.
    pub permitted-Expected :
        (engine : WfpEngine) (p : Packet)
        → IsKillSwitch engine
        → classify engine.filters p ≡ permit
        → (f : Filter) × Expected std api args f × Hits f p × (f.action ≡ permit)
    permitted-Expected engine p k h =
        let (f, m, hit, act, heavy) = overruled_by (layer_of p) refl in
        (f, All-Member (Expected std api args) f engine.filters k.expected m, hit, act)
      where
        overruled_by :
            (l : Layer)
            → layer_of p ≡ l
            → (g : Filter) × Member g engine.filters
              × Hits g p
              × (g.action ≡ permit)
              × (0 ≤ g.weight)
        overruled_by connect_v4 e =
            w.overruled engine.filters (rule connect_v4 0 block []) p
              (base-Member engine _ k (inr (inr (inr (inl refl))))) (rw e) refl h
        overruled_by connect_v6 e =
            w.overruled engine.filters (rule connect_v6 0 block []) p
              (base-Member engine _ k (inr (inr (inl refl)))) (rw e) refl h

-- However it ends, `disable` leaves no engine; a heartbeat leaves the engine alone.
pub disable_engine : (api : Api) (fw : Firewall) → (disable_blocking api fw).0.engine ≡ none
unfolding disable_blocking
disable_engine api fw = refl

pub heartbeat_engine : (now : ℕ) (fw : Firewall) → (heartbeat now fw).engine ≡ fw.engine
unfolding heartbeat
heartbeat_engine now fw = refl
