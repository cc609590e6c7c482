-- ===== src/Firewall/Bounds.antt =====
-- src-tauri/src/bin/kwik_helper/firewall.rs: the weights. WFP takes a weight of 0 to 15 only, and the
-- order of the weights decides between the filters.
use mathlib.Core.Path.{subst}
use kwik_proxy_secure.Net.{Std}
use kwik_proxy_secure.Prelude.{ℕ, ◌≤◌, some, ok, ◌≡◌, arith, Member, All-Member, ◌⊎◌, inl, inr}
use kwik_proxy_secure.Wfp.{Api, Filter, WfpEngine, permit, block}
use kwik_proxy_secure.Firewall.{EnableArgs, Firewall, enable_blocking, w_dns_block, w_lan}
use kwik_proxy_secure.Firewall.Expected.{Expected}
use kwik_proxy_secure.Firewall.KillSwitch.{IsKillSwitch, enable_blocking-IsKillSwitch}

-- What the weight of a filter says of its action.
abbrev pub IsWeighted : Filter → Type 0
IsWeighted f =
    (f.weight ≤ 15)
    × (((f.action ≡ block) × (f.weight ≤ w_dns_block)) ⊎ ((f.action ≡ permit) × (w_lan ≤ f.weight)))

module _ (std : Std) (api : Api) (args : EnableArgs) where
  Expected-IsWeighted : (f : Filter) → Expected std api args f → IsWeighted f
  Expected-IsWeighted f (Expected.fallback l e) = (ground arith, inl (ground arith, ground arith))
  Expected-IsWeighted f (Expected.loopback_four e) =
      (ground arith, inr (ground arith, ground arith))
  Expected-IsWeighted f (Expected.loopback_six e) = (ground arith, inr (ground arith, ground arith))
  Expected-IsWeighted f (Expected.lan_four n m s on e) =
      (ground arith, inr (ground arith, ground arith))
  Expected-IsWeighted f (Expected.lan_six n m s on off e) =
      (ground arith, inr (ground arith, ground arith))
  Expected-IsWeighted f (Expected.server_four ip c m p e) =
      (ground arith, inr (ground arith, ground arith))
  Expected-IsWeighted f (Expected.server_six ip c m p off e) =
      (ground arith, inr (ground arith, ground arith))
  Expected-IsWeighted f (Expected.app_four q c m s i e) =
      (ground arith, inr (ground arith, ground arith))
  Expected-IsWeighted f (Expected.app_six q c m s i off e) =
      (ground arith, inr (ground arith, ground arith))
  Expected-IsWeighted f (Expected.tun_four i t e) = (ground arith, inr (ground arith, ground arith))
  Expected-IsWeighted f (Expected.tun_six i t off e) =
      (ground arith, inr (ground arith, ground arith))
  Expected-IsWeighted f (Expected.dns_permit ip c d q on m p e) =
      (ground arith, inr (ground arith, ground arith))
  Expected-IsWeighted f (Expected.dns_block l c d on e) =
      (ground arith, inl (ground arith, ground arith))

  -- After `enable` returns `Ok`, every filter in force has a weight of at most 15; a block has at most
  -- that of the DNS block, and a permit at least that of the LAN.
  pub enable-IsWeighted :
      (now : ℕ) (fw fw' : Firewall) (engine : WfpEngine) (f : Filter)
      → enable_blocking std api args now fw ≡ (fw', ok tt)
      → fw'.engine ≡ some engine
      → Member f engine.filters
      → IsWeighted f
  enable-IsWeighted now fw fw' engine f e there m =
      let (made, stands, shape) = enable_blocking-IsKillSwitch std api args now fw fw' e in
      let same : made ≡ engine = ground arith in
      let k = subst (IsKillSwitch std api args) same shape in
      Expected-IsWeighted f (All-Member (Expected std api args) f engine.filters k.expected m)
