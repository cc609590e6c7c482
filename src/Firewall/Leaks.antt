-- ===== src/Firewall/Leaks.antt =====
-- src-tauri/src/bin/kwik_helper/firewall.rs: the promises of the kill switch, for every packet and
-- whatever Windows answers, once `enable` has returned `Ok`.
use mathlib.Core.Path.{subst}
use kwik_proxy_secure.Net.{Std}
use kwik_proxy_secure.Prelude.{
  ℕ, ◌≤◌, ◌<◌, Bool, true, false, ◌&&◌, [], ◌∷◌, some, Result-cases, ok, ◌≡◌, refl, ◌∙◌, inl, inr,
  Member, All-Member, arith,
}
use kwik_proxy_secure.Tun.{OwnedTunInterface}
use kwik_proxy_secure.Wfp.{
  Api, Layer, connect_v4, connect_v6, Filter, permit, block, WfpEngine, remote_v4, remote_v6,
  remote_port, protocol, local_interface,
}
use kwik_proxy_secure.Firewall.{
  EnableArgs, Firewall, new_engine, enable_blocking, loopback_v6, w_loopback, w_dns_block,
}
use kwik_proxy_secure.Firewall.Expected.{Expected, rule, DnsProtocol}
use kwik_proxy_secure.Firewall.KillSwitch.{
  IsKillSwitch, new_engine-IsKillSwitch, base-Member, Hits, permitted-Expected,
}
use kwik_proxy_secure.Firewall.Presence.{Expected-block, dns_block-Member, tun-Member}
use kwik_proxy_secure.Firewall.Arbitration.{Arbitration, layer_eq}

module _ (w : Arbitration) (std : Std) (api : Api) (args : EnableArgs) where
  open w use {Packet, layer_of, holds, classify}

  -- The engine that a successful `enable` leaves in place, and its filters.
  pub record Enabled (engine : WfpEngine) : Type 0 where
    pub made : new_engine std api args ≡ ok engine
    pub shape : IsKillSwitch std api args engine

  pub Enabled-of :
      (now : ℕ) (fw fw' : Firewall) (engine : WfpEngine)
      → enable_blocking std api args now fw ≡ (fw', ok tt)
      → fw'.engine ≡ some engine
      → Enabled engine
  unfolding enable_blocking
  Enabled-of now fw fw' engine e there = elim (Result-cases (new_engine std api args)) [
    | inl (built, made) ↦
        let same : new_engine std api args ≡ ok engine = ground arith in
        record { made = same; shape = new_engine-IsKillSwitch std api args engine same }
    | inr (error, failed) ↦ absurd (ground arith)
  ]

  -- After `enable` returns `Ok`, every packet that gets through matches a permit filter that the
  -- arguments call for.
  pub enable-permits_only :
      (now : ℕ) (fw fw' : Firewall) (engine : WfpEngine) (p : Packet)
      → enable_blocking std api args now fw ≡ (fw', ok tt)
      → fw'.engine ≡ some engine
      → classify engine.filters p ≡ permit
      → (f : Filter) × Expected std api args f × Hits std api args w f p × (f.action ≡ permit)
  enable-permits_only now fw fw' engine p e there h =
      permitted-Expected std api args w engine p (Enabled-of now fw fw' engine e there).shape h

  loopback_of_v6 :
      (f : Filter)
      → Expected std api args f
      → args.force_disable_ipv6 ≡ true
      → f.layer ≡ connect_v6
      → f.action ≡ permit
      → f ≡ rule connect_v6 w_loopback permit (remote_v6 loopback_v6 128 ∷ [])
  loopback_of_v6 f (Expected.fallback l e) forced six a = ground arith
  loopback_of_v6 f (Expected.loopback_four e) forced six a = ground arith
  loopback_of_v6 f (Expected.loopback_six e) forced six a = ground arith
  loopback_of_v6 f (Expected.lan_four n m s on e) forced six a = ground arith
  loopback_of_v6 f (Expected.lan_six n m s on off e) forced six a = ground arith
  loopback_of_v6 f (Expected.server_four ip c m p e) forced six a = ground arith
  loopback_of_v6 f (Expected.server_six ip c m p off e) forced six a = ground arith
  loopback_of_v6 f (Expected.app_four q c m s i e) forced six a = ground arith
  loopback_of_v6 f (Expected.app_six q c m s i off e) forced six a = ground arith
  loopback_of_v6 f (Expected.tun_four i t e) forced six a = ground arith
  loopback_of_v6 f (Expected.tun_six i t off e) forced six a = ground arith
  loopback_of_v6 f (Expected.dns_permit ip c d q on m p e) forced six a = ground arith
  loopback_of_v6 f (Expected.dns_block l c d on e) forced six a = ground arith

  above_dns_block :
      (f : Filter)
      → Expected std api args f
      → f.action ≡ permit
      → w_dns_block ≤ f.weight
      → w_dns_block < f.weight
  above_dns_block f (Expected.fallback l e) a h = ground arith
  above_dns_block f (Expected.loopback_four e) a h = ground arith
  above_dns_block f (Expected.loopback_six e) a h = ground arith
  above_dns_block f (Expected.lan_four n m s on e) a h = ground arith
  above_dns_block f (Expected.lan_six n m s on off e) a h = ground arith
  above_dns_block f (Expected.server_four ip c m p e) a h = ground arith
  above_dns_block f (Expected.server_six ip c m p off e) a h = ground arith
  above_dns_block f (Expected.app_four q c m s i e) a h = ground arith
  above_dns_block f (Expected.app_six q c m s i off e) a h = ground arith
  above_dns_block f (Expected.tun_four i t e) a h = ground arith
  above_dns_block f (Expected.tun_six i t off e) a h = ground arith
  above_dns_block f (Expected.dns_permit ip c d q on m p e) a h = ground arith
  above_dns_block f (Expected.dns_block l c d on e) a h = ground arith

  layer_of_hit : (f : Filter) (p : Packet) → Hits std api args w f p → f.layer ≡ layer_of p
  layer_of_hit f p h = same_layer (layer_of p) f.layer (and_left _ _ h)
    where
      and_left : (a b : Bool) → (a && b) ≡ true → a ≡ true
      and_left true b e = refl
      and_left false b e = e

      same_layer : (l k : Layer) → layer_eq l k ≡ true → k ≡ l
      same_layer connect_v4 connect_v4 e = refl
      same_layer connect_v6 connect_v6 e = refl
      same_layer connect_v4 connect_v6 e = cc
      same_layer connect_v6 connect_v4 e = cc

  -- With `force_disable_ipv6`, after `enable` returns `Ok`, an IPv6 packet that gets through is one
  -- to `::1`.
  pub enable-no_ipv6 :
      (now : ℕ) (fw fw' : Firewall) (engine : WfpEngine) (p : Packet)
      → enable_blocking std api args now fw ≡ (fw', ok tt)
      → fw'.engine ≡ some engine
      → args.force_disable_ipv6 ≡ true
      → layer_of p ≡ connect_v6
      → classify engine.filters p ≡ permit
      → holds (remote_v6 loopback_v6 128) p ≡ true
  enable-no_ipv6 now fw fw' engine p e there forced six h =
      let (f, x, hit, a) = enable-permits_only now fw fw' engine p e there h in
      let same = loopback_of_v6 f x forced (layer_of_hit f p hit ∙ six) a in
      to_loopback (subst (λ g. Hits std api args w g p) same hit)
    where
      to_loopback :
          Hits std api args w (rule connect_v6 w_loopback permit (remote_v6 loopback_v6 128 ∷ [])) p
          → holds (remote_v6 loopback_v6 128) p ≡ true
      to_loopback hit = ground arith

  -- With `block_dns`, after `enable` returns `Ok`, a packet to port 53 over UDP or TCP gets through
  -- only by a permit filter that the arguments call for and that outweighs the DNS block.
  pub enable-dns_sealed :
      (now : ℕ) (fw fw' : Firewall) (engine : WfpEngine) (p : Packet) (proto : ℕ)
      → enable_blocking std api args now fw ≡ (fw', ok tt)
      → fw'.engine ≡ some engine
      → args.block_dns ≡ true
      → DnsProtocol proto
      → holds (remote_port 53) p ≡ true
      → holds (protocol proto) p ≡ true
      → classify engine.filters p ≡ permit
      → (f : Filter) × Expected std api args f
        × Hits std api args w f p
        × (f.action ≡ permit)
        × (w_dns_block < f.weight)
  enable-dns_sealed now fw fw' engine p proto e there sealed d port pr h =
      let on = Enabled-of now fw fw' engine e there in
      let blocked = dns_block-Member std api args engine on.made sealed (layer_of p) proto d in
      let (f, m, hit, a, heavy) = w.overruled engine.filters _ p blocked hits_block refl h in
      let x = All-Member (Expected std api args) f engine.filters on.shape.expected m in
      (f, x, hit, a, above_dns_block f x a heavy)
    where
      layer_refl : (l : Layer) → layer_eq l l ≡ true
      layer_refl connect_v4 = refl
      layer_refl connect_v6 = refl

      hits_block :
          Hits std api args w
            (rule (layer_of p) w_dns_block block (remote_port 53 ∷ protocol proto ∷ []))
            p
      hits_block = rw (layer_refl (layer_of p), port, pr) refl

  outweighed :
      (engine : WfpEngine) (f : Filter) (p : Packet)
      → IsKillSwitch std api args engine
      → Member f engine.filters
      → Hits std api args w f p
      → f.action ≡ permit
      → w_dns_block < f.weight
      → classify engine.filters p ≡ permit
  outweighed engine f p k m hit a heavy = w.granted engine.filters f p m hit a λ g mg hg b.
      let light = Expected-block std api args g (All-Member _ g engine.filters k.expected mg) b in
      omega arith

  -- After `enable` returns `Ok`, IPv4 packets to 127.0.0.0/8 get through, whatever the arguments say.
  pub enable-keeps_loopback :
      (now : ℕ) (fw fw' : Firewall) (engine : WfpEngine) (p : Packet)
      → enable_blocking std api args now fw ≡ (fw', ok tt)
      → fw'.engine ≡ some engine
      → layer_of p ≡ connect_v4
      → holds (remote_v4 0x7F00_0000 0xFF00_0000) p ≡ true
      → classify engine.filters p ≡ permit
  enable-keeps_loopback now fw fw' engine p e there four local =
      let on = Enabled-of now fw fw' engine e there in
      outweighed engine _ p on.shape (base-Member std api args engine _ on.shape (inr (inl refl)))
        (rw (four, local) refl) refl (omega arith)

  -- After `enable` returns `Ok`, IPv4 packets that leave by the given TUN interface get through,
  -- those to port 53 included.
  pub enable-keeps_tunnel :
      (now : ℕ) (fw fw' : Firewall) (engine : WfpEngine) (p : Packet) (i : OwnedTunInterface)
      → enable_blocking std api args now fw ≡ (fw', ok tt)
      → fw'.engine ≡ some engine
      → args.tun_interface ≡ some i
      → layer_of p ≡ connect_v4
      → holds (local_interface i.luid) p ≡ true
      → classify engine.filters p ≡ permit
  enable-keeps_tunnel now fw fw' engine p i e there t four local =
      let on = Enabled-of now fw fw' engine e there in
      outweighed engine _ p on.shape (tun-Member std api args engine i on.made t)
        (rw (four, local) refl) refl (omega arith)
