-- ===== src/Firewall/Expected.antt =====
-- src-tauri/src/bin/kwik_helper/firewall.rs: the filters that a kill switch is meant to hold, each
-- with the argument of `enable` that calls for it, and the transaction steps that add only these.
use mathlib.Core.List.{append_assoc}
use kwik_proxy_secure.Net.{Std, Ipv4Addr, Ipv6Addr}
use kwik_proxy_secure.Prelude.{
  ℕ, Text, true, false, List, [], ◌∷◌, ◌++◌, some, ok, ◌>>=◌, ◌≡◌, refl, sym, ◌∙◌, ap, All, Member,
  All-append, >>=-eq-ok, arith,
}
use kwik_proxy_secure.Tun.{OwnedTunInterface}
use kwik_proxy_secure.Wfp
use kwik_proxy_secure.Wfp.{
  Api, Tx, Layer, connect_v4, connect_v6, Filter, Action, permit, block, Condition, remote_v4,
  remote_v6, remote_port, protocol, app_id, local_interface,
}
use kwik_proxy_secure.Firewall.{
  EnableArgs, ipv4_to_u32, is_strict_engine, w_lan, w_dns_block, w_loopback, w_server, w_app,
  w_dns_permit, w_tun_interface, ipproto_tcp, ipproto_udp, loopback_v6, link_local_v6, multicast_v6,
}

abbrev pub rule : Layer → ℕ → Action → List Condition → Filter
rule l w a cs = record { layer = l; weight = w; action = a; conditions = cs }

-- RFC 1918 and link-local, as address and mask.
pub data LanSubnet : ℕ → ℕ → Type 0 where
  ten : LanSubnet 0x0A00_0000 0xFF00_0000
  sixteen_bits : LanSubnet 0xC0A8_0000 0xFFFF_0000
  twelve_bits : LanSubnet 0xAC10_0000 0xFFF0_0000
  apipa : LanSubnet 0xA9FE_0000 0xFFFF_0000

pub data LanSubnet6 : ℕ → ℕ → Type 0 where
  link_local : LanSubnet6 link_local_v6 10
  multicast : LanSubnet6 multicast_v6 8

pub data DnsProtocol : ℕ → Type 0 where
  udp : DnsProtocol ipproto_udp
  tcp : DnsProtocol ipproto_tcp

module _ (std : Std) (api : Api) (args : EnableArgs) where
  -- Every filter of the kill switch, and why it is there.
  pub data Expected (f : Filter) : Type 0 where
    fallback : (l : Layer) → f ≡ rule l 0 block [] → Expected f
    loopback_four :
        f ≡ rule connect_v4 w_loopback permit (remote_v4 0x7F00_0000 0xFF00_0000 ∷ []) → Expected f
    loopback_six :
        f ≡ rule connect_v6 w_loopback permit (remote_v6 loopback_v6 128 ∷ []) → Expected f
    lan_four :
        (net mask : ℕ)
        → LanSubnet net mask
        → args.allow_lan ≡ true
        → f ≡ rule connect_v4 w_lan permit (remote_v4 net mask ∷ [])
        → Expected f
    lan_six :
        (net prefix : ℕ)
        → LanSubnet6 net prefix
        → args.allow_lan ≡ true
        → args.force_disable_ipv6 ≡ false
        → f ≡ rule connect_v6 w_lan permit (remote_v6 net prefix ∷ [])
        → Expected f
    server_four :
        (ip : Text) (a : Ipv4Addr)
        → Member ip args.server_ips
        → std.ipv4 ip ≡ some a
        → f ≡ rule connect_v4 w_server permit (remote_v4 (ipv4_to_u32 a) 0xFFFF_FFFF ∷ [])
        → Expected f
    server_six :
        (ip : Text) (a : Ipv6Addr)
        → Member ip args.server_ips
        → std.ipv6 ip ≡ some a
        → args.force_disable_ipv6 ≡ false
        → f ≡ rule connect_v6 w_server permit (remote_v6 a.bits 128 ∷ [])
        → Expected f
    app_four :
        (path blob : Text)
        → Member path args.allow_app_paths
        → is_strict_engine std api args path ≡ false
        → api.app_id_from_file_name path ≡ some blob
        → f ≡ rule connect_v4 w_app permit (app_id blob ∷ [])
        → Expected f
    app_six :
        (path blob : Text)
        → Member path args.allow_app_paths
        → is_strict_engine std api args path ≡ false
        → api.app_id_from_file_name path ≡ some blob
        → args.force_disable_ipv6 ≡ false
        → f ≡ rule connect_v6 w_app permit (app_id blob ∷ [])
        → Expected f
    tun_four :
        (i : OwnedTunInterface)
        → args.tun_interface ≡ some i
        → f ≡ rule connect_v4 w_tun_interface permit (local_interface i.luid ∷ [])
        → Expected f
    tun_six :
        (i : OwnedTunInterface)
        → args.tun_interface ≡ some i
        → args.force_disable_ipv6 ≡ false
        → f ≡ rule connect_v6 w_tun_interface permit (local_interface i.luid ∷ [])
        → Expected f
    dns_permit :
        (ip : Text) (a : Ipv4Addr) (proto : ℕ)
        → DnsProtocol proto
        → args.block_dns ≡ true
        → Member ip args.allow_dns_ips
        → std.ipv4 ip ≡ some a
        → f
          ≡ rule connect_v4 w_dns_permit permit
              (remote_v4 (ipv4_to_u32 a) 0xFFFF_FFFF ∷ remote_port 53 ∷ protocol proto ∷ [])
        → Expected f
    dns_block :
        (l : Layer) (proto : ℕ)
        → DnsProtocol proto
        → args.block_dns ≡ true
        → f ≡ rule l w_dns_block block (remote_port 53 ∷ protocol proto ∷ [])
        → Expected f

  -- From `fs` to `gs` only expected filters were added.
  pub record Adds (fs gs : List Filter) : Type 0 where
    pub fresh : List Filter
    pub grown : gs ≡ fresh ++ fs
    pub expected : All Expected fresh

  pub Adds-refl : (fs : List Filter) → Adds fs fs
  Adds-refl fs = record { fresh = []; grown = refl; expected = tt }

  pub Adds-trans : (fs gs hs : List Filter) → Adds fs gs → Adds gs hs → Adds fs hs
  Adds-trans fs gs hs a b = record {
    fresh = b.fresh ++ a.fresh;
    grown = b.grown ∙ ap (λ l. b.fresh ++ l) a.grown ∙ sym (append_assoc b.fresh a.fresh fs);
    expected = All-append Expected b.fresh a.fresh b.expected a.expected;
  }

  -- A step that, where it succeeds, adds only expected filters.
  abbrev pub Safe : Tx → Type 0
  Safe step = (fs gs : List Filter) → step fs ≡ ok gs → Adds fs gs

  pub Safe-ok : Safe ok
  Safe-ok fs gs e =
      let same : fs ≡ gs = cc in record { fresh = []; grown = sym same; expected = tt }

  pub Safe->>= : (step next : Tx) → Safe step → Safe next → Safe (λ fs. step fs >>= next)
  Safe->>= step next s n fs gs e =
      let (mid, first, second) = >>=-eq-ok (step fs) next e in
      Adds-trans fs mid gs (s fs mid first) (n mid gs second)

  pub add_filter-Safe :
      (l : Layer) (w : ℕ) (a : Action) (cs : List Condition)
      → Expected (rule l w a cs)
      → Safe (Wfp.add_filter api l w a cs)
  unfolding Wfp.add_filter
  add_filter-Safe l w a cs h fs gs e = record {
    fresh = rule l w a cs ∷ [];
    grown = ground arith;
    expected = (h, tt);
  }
