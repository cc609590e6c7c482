-- ===== src/Firewall/Install.antt =====
-- src-tauri/src/bin/kwik_helper/firewall.rs: every step of the transaction of `enable_blocking`
-- adds only the filters that `Expected` lists.
use mathlib.Core.Path.{subst}
use kwik_proxy_secure.Net.{Std}
use kwik_proxy_secure.Prelude.{
  ℕ, Text, Bool, true, false, not, List, [], ◌∷◌, Option, none, some, Result, ok, err, ◌>>=◌, ◌≡◌,
  refl, ensure, ◌>>◌, inl, inr, Member, arith, if◌then◌else◌,
}
use kwik_proxy_secure.Wfp
use kwik_proxy_secure.Wfp.{
  Api, Tx, WfpEngine, Layer, connect_v4, connect_v6, Filter, permit, app_id,
}
use kwik_proxy_secure.Firewall.{
  EnableArgs, add_base, add_lan_v4, add_lan_v6, add_lan, add_server_v6, add_server, add_app_v6,
  add_app, add_tun, add_dns_permit, add_dns_block, add_dns, for_each, add_exceptions,
  is_strict_engine, w_app,
}
use kwik_proxy_secure.Firewall.Expected.{
  Expected, Adds, Adds-refl, Adds-trans, Safe, Safe-ok, Safe->>=, add_filter-Safe, rule, LanSubnet,
  LanSubnet6, DnsProtocol,
}

module _ (std : Std) (api : Api) (args : EnableArgs) where
  abbrev pub Sound : Tx → Type 0
  Sound = Safe std api args

  abbrev then_do : (step next : Tx) → Sound step → Sound next → Sound (λ fs. step fs >>= next)
  then_do = Safe->>= std api args

  lan_v4-Safe :
      (net mask : ℕ)
      → LanSubnet net mask
      → args.allow_lan ≡ true
      → Sound (add_lan_v4 std api args net mask)
  unfolding Wfp.add_filter_allow_v4_subnet
  lan_v4-Safe net mask s h =
      add_filter-Safe std api args _ _ _ _ (Expected.lan_four net mask s h refl)

  lan_v6-Safe :
      (net prefix : ℕ)
      → LanSubnet6 net prefix
      → args.allow_lan ≡ true
      → args.force_disable_ipv6 ≡ false
      → Sound (Wfp.add_filter_allow_v6_subnet api connect_v6 8 net prefix)
  unfolding Wfp.add_filter_allow_v6_subnet
  lan_v6-Safe net prefix s h k =
      add_filter-Safe std api args _ _ _ _ (Expected.lan_six net prefix s h k refl)

  -- A step under a test, or under an optional value, is sound if each branch is.
  when_Safe :
      (b : Bool) (step : Tx)
      → (b ≡ true → Sound step)
      → Sound (λ fs. if not b then ok fs else step fs)
  when_Safe true step h = h refl
  when_Safe false step h = Safe-ok std api args

  unless_Safe :
      (b : Bool) (step : Tx) → (b ≡ false → Sound step) → Sound (λ fs. if b then ok fs else step fs)
  unless_Safe true step h = Safe-ok std api args
  unless_Safe false step h = h refl

  option_Safe :
      {A : Type 0} (o : Option A) (skip : Tx) (step : A → Tx)
      → Sound skip
      → ((a : A) → o ≡ some a → Sound (step a))
      → Sound (λ fs. elim o [ none ↦ skip fs | some a ↦ step a fs ])
  option_Safe none skip step k h = k
  option_Safe (some a) skip step k h = h a refl

  add_lan_v6-Safe :
      args.allow_lan ≡ true → args.force_disable_ipv6 ≡ false → Sound (add_lan_v6 std api args)
  unfolding add_lan_v6
  add_lan_v6-Safe h k =
      then_do _ _ (lan_v6-Safe _ _ LanSubnet6.link_local h k)
        (lan_v6-Safe _ _ LanSubnet6.multicast h k)

  add_lan-Safe : Sound (add_lan std api args)
  unfolding add_lan
  add_lan-Safe = when_Safe args.allow_lan _ λ h. then_do _ _ (lan_v4-Safe _ _ LanSubnet.ten h) (
      then_do _ _ (lan_v4-Safe _ _ LanSubnet.twelve_bits h) (
        then_do _ _ (lan_v4-Safe _ _ LanSubnet.sixteen_bits h) (
          then_do _ _ (lan_v4-Safe _ _ LanSubnet.apipa h)
            (unless_Safe args.force_disable_ipv6 _ (add_lan_v6-Safe h)))))

  add_server_v6-Safe :
      (ip : Text) → Member ip args.server_ips → Sound (add_server_v6 std api args ip)
  unfolding add_server_v6
  add_server_v6-Safe ip m = option_Safe (std.ipv6 ip) _ _ (Safe-ok std api args) λ a hit.
      unless_Safe args.force_disable_ipv6 _
        λ off. add_filter-Safe std api args _ _ _ _ (Expected.server_six ip a m hit off refl)

  add_server-Safe : (ip : Text) → Member ip args.server_ips → Sound (add_server std api args ip)
  unfolding add_server
  add_server-Safe ip m =
      option_Safe (std.ipv4 ip) _ _ (add_server_v6-Safe ip m)
        λ a hit. add_filter-Safe std api args _ _ _ _ (Expected.server_four ip a m hit refl)

  -- `for_each` is sound if the step is, for the entries of the list.
  for_each-Safe :
      (step : Text → Tx) (all items : List Text)
      → ((item : Text) → Member item all → Sound (step item))
      → ((item : Text) → Member item items → Member item all)
      → Sound (for_each std api args step items)
  unfolding for_each
  for_each-Safe step all [] h sub = Safe-ok std api args
  for_each-Safe step all (item ∷ items) h sub =
      then_do _ _ (h item (sub item (inl refl)))
        (for_each-Safe step all items h (λ i m. sub i (inr m)))

  allow_app-Safe :
      (l : Layer) (path : Text)
      → ((blob : Text)
          → api.app_id_from_file_name path ≡ some blob
          → Expected std api args (rule l w_app permit (app_id blob ∷ [])))
      → Sound (Wfp.add_filter_allow_app api l w_app path)
  unfolding Wfp.add_filter_allow_app
  allow_app-Safe l path h =
      option_Safe (api.app_id_from_file_name path) _ _ (λ fs gs e. cc)
        λ blob hit. add_filter-Safe std api args _ _ _ _ (h blob hit)

  -- What is skipped, or refused and passed over, adds nothing.
  skip_Adds :
      (b : Bool) (fs gs : List Filter)
      → (b ≡ false → Adds std api args fs gs)
      → Adds std api args fs (if b then fs else gs)
  skip_Adds true fs gs h = Adds-refl std api args fs
  skip_Adds false fs gs h = h refl

  attempt_Adds :
      (r : Result Wfp.Error (List Filter)) (fs : List Filter) (next : List Filter → List Filter)
      → ((gs : List Filter) → r ≡ ok gs → Adds std api args fs (next gs))
      → Adds std api args fs (elim r [ ok gs ↦ next gs | err e ↦ fs ])
  attempt_Adds (ok gs) fs next h = h gs refl
  attempt_Adds (err e) fs next h = Adds-refl std api args fs

  module _ (path : Text) (m : Member path args.allow_app_paths)
      (weak : is_strict_engine std api args path ≡ false) where
    add_app_v6-Adds : (fs : List Filter) → Adds std api args fs (add_app_v6 std api args path fs)
    unfolding add_app_v6
    add_app_v6-Adds fs = skip_Adds args.force_disable_ipv6 fs _ λ off.
        attempt_Adds _ fs (λ gs. gs)
          λ gs done.
            allow_app-Safe connect_v6 path
              (λ blob hit. Expected.app_six path blob m weak hit off refl) fs gs done

    app_attempt-Adds :
        (fs : List Filter)
        → Adds std api args fs (elim (Wfp.add_filter_allow_app api connect_v4 w_app path fs) [
          | ok fs1 ↦ add_app_v6 std api args path fs1
          | err e ↦ fs
        ])
    app_attempt-Adds fs = attempt_Adds _ fs (add_app_v6 std api args path) λ gs done.
        Adds-trans std api args fs gs _
          (allow_app-Safe connect_v4 path (λ blob hit. Expected.app_four path blob m weak hit refl)
            fs gs done)
          (add_app_v6-Adds gs)

  add_app-Adds :
      (path : Text) (fs : List Filter)
      → Member path args.allow_app_paths
      → Adds std api args fs (add_app std api args path fs)
  unfolding add_app
  add_app-Adds path fs m =
      skip_Adds (is_strict_engine std api args path) fs _ (λ weak. app_attempt-Adds path m weak fs)

  add_app-Safe :
      (path : Text)
      → Member path args.allow_app_paths
      → Sound (λ fs. ok (add_app std api args path fs))
  add_app-Safe path m fs gs e =
      let same : add_app std api args path fs ≡ gs = cc in
      subst (Adds std api args fs) same (add_app-Adds path fs m)

  pub add_tun-Safe : Sound (add_tun std api args)
  unfolding add_tun Wfp.add_filter_allow_local_interface_luid
  add_tun-Safe = option_Safe args.tun_interface _ _ (Safe-ok std api args) λ i h.
      then_do _ _ (add_filter-Safe std api args _ _ _ _ (Expected.tun_four i h refl)) (
        unless_Safe args.force_disable_ipv6 _
          λ off. add_filter-Safe std api args _ _ _ _ (Expected.tun_six i h off refl))

  module _ (on : args.block_dns ≡ true) where
    add_dns_permit-Safe :
        (ip : Text) → Member ip args.allow_dns_ips → Sound (add_dns_permit std api args ip)
    unfolding add_dns_permit Wfp.add_filter_allow_v4_addr_port_proto
    add_dns_permit-Safe ip m = option_Safe (std.ipv4 ip) _ _ (Safe-ok std api args) λ a hit.
        then_do _ _
          (add_filter-Safe std api args _ _ _ _
            (Expected.dns_permit ip a _ DnsProtocol.udp on m hit refl))
          (add_filter-Safe std api args _ _ _ _
            (Expected.dns_permit ip a _ DnsProtocol.tcp on m hit refl))

    add_dns_block-Safe : (l : Layer) → Sound (add_dns_block std api args l)
    unfolding add_dns_block Wfp.add_filter_block_port_proto
    add_dns_block-Safe l =
        then_do _ _
          (add_filter-Safe std api args _ _ _ _ (Expected.dns_block l _ DnsProtocol.udp on refl))
          (add_filter-Safe std api args _ _ _ _ (Expected.dns_block l _ DnsProtocol.tcp on refl))

  pub add_dns-Safe : Sound (add_dns std api args)
  unfolding add_dns
  add_dns-Safe = when_Safe args.block_dns _ λ on.
      then_do _ _
        (for_each-Safe (add_dns_permit std api args) args.allow_dns_ips args.allow_dns_ips
          (add_dns_permit-Safe on) (λ i m. m))
        (then_do _ _ (add_dns_block-Safe on connect_v4) (add_dns_block-Safe on connect_v6))

  add_provider-Safe : Sound (Wfp.add_provider api)
  unfolding Wfp.add_provider
  add_provider-Safe = provided
    where
      provided : Sound (λ fs. ensure api.provider_add Wfp.provider_failed >> ok fs)
      provided fs gs e = Safe-ok std api args fs gs (ground arith)

  add_sublayer-Safe : Sound (Wfp.add_sublayer api)
  unfolding Wfp.add_sublayer
  add_sublayer-Safe fs gs e = Safe-ok std api args fs gs (ground arith)

  add_base-Safe : Sound (add_base std api args)
  unfolding add_base
  add_base-Safe = then_do _ _ add_provider-Safe (
      then_do _ _ add_sublayer-Safe (
        then_do _ _ (add_filter-Safe std api args _ _ _ _ (Expected.fallback connect_v4 refl)) (
          then_do _ _ (add_filter-Safe std api args _ _ _ _ (Expected.fallback connect_v6 refl)) (
            then_do _ _ (add_filter-Safe std api args _ _ _ _ (Expected.loopback_four refl))
              (add_filter-Safe std api args _ _ _ _ (Expected.loopback_six refl))))))

  pub add_exceptions-Safe : Sound (add_exceptions std api args)
  unfolding add_exceptions
  add_exceptions-Safe = then_do _ _ add_lan-Safe (
      then_do _ _
        (for_each-Safe (add_server std api args) args.server_ips args.server_ips add_server-Safe
          (λ i m. m))
        (then_do _ _
          (for_each-Safe (λ path gs. ok (add_app std api args path gs)) args.allow_app_paths
            args.allow_app_paths add_app-Safe (λ i m. m))
          (then_do _ _ add_tun-Safe add_dns-Safe)))
