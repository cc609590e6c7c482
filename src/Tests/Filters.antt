-- ===== src/Tests/Filters.antt =====
-- The theorems of Firewall at the kill switch of a whole configuration.
use kwik_proxy_secure.Firewall
use kwik_proxy_secure.Firewall.{EnableArgs, Firewall, enable_blocking}
use kwik_proxy_secure.Firewall.Expected.{Expected, udp}
use kwik_proxy_secure.Firewall.KillSwitch.{Hits}
use kwik_proxy_secure.Firewall.Leaks.{
  enable-permits_only, enable-no_ipv6, enable-dns_sealed, enable-keeps_tunnel,
}
use kwik_proxy_secure.Firewall.Weighing.{Packet, weighing, classify, holds}
use kwik_proxy_secure.Prelude.{
  inl, ℕ, ◌<◌, codes, true, false, [], ◌∷◌, none, some, ok, err, ◌≡◌, refl, Text, List,
}
use kwik_proxy_secure.Tests.{std_example, api_example, server_address, quiet}
use kwik_proxy_secure.Wfp.{
  protocol, remote_port, block, Filter, WfpEngine, connect_v4, connect_v6, permit, remote_v6,
}

abbrev full : EnableArgs
full = record {
  server_ips = server_address ∷ [];
  allow_lan = true;
  allow_app_paths = codes "ui" ∷ codes "mihomo" ∷ [];
  block_dns = true;
  allow_dns_ips = server_address ∷ [];
  tun_interface = some (record { if_index = 7; luid = 42 });
  strict_mode = true;
  force_disable_ipv6 = true;
}

abbrev on : Firewall
on = (enable_blocking std_example api_example full 5 quiet).0

abbrev nothing : WfpEngine
nothing = record { dynamic = false; filters = [] }

abbrev engine_on : WfpEngine
engine_on = elim on.engine [ none ↦ nothing | some e ↦ e ]

-- To the server over IPv4, to ::1, and by the TUN interface to port 53.
abbrev to_server : Packet
to_server = record {
  layer = connect_v4;
  remote = 0x0102_0304;
  port = 443;
  proto = 6;
  app = [];
  luid = 1;
}

abbrev to_self : Packet
to_self = record { layer = connect_v6; remote = 1; port = 80; proto = 6; app = []; luid = 1 }

abbrev tunnelled : Packet
tunnelled = record {
  layer = connect_v4;
  remote = 0x0808_0808;
  port = 53;
  proto = 17;
  app = [];
  luid = 42;
}

abbrev to_localhost : Packet
to_localhost = record {
  layer = connect_v4;
  remote = 0x7F00_0001;
  port = 53;
  proto = 17;
  app = [];
  luid = 1;
}

enable-permits_only_example :
    (f : Filter) × Expected std_example api_example full f
    × Hits std_example api_example full weighing f to_server
    × (f.action ≡ permit)
unfolding enable_blocking Firewall.install Firewall.add_base Firewall.add_exceptions
    Firewall.add_lan Firewall.for_each Firewall.add_server kwik_proxy_secure.Prelude.text_eq
    Firewall.add_tun Firewall.add_dns classify holds Firewall.add_app
enable-permits_only_example =
    enable-permits_only weighing std_example api_example full 5 quiet on engine_on to_server refl
      refl refl

enable-no_ipv6_example : holds (remote_v6 1 128) to_self ≡ true
unfolding enable_blocking Firewall.install Firewall.add_base Firewall.add_exceptions
    Firewall.add_lan Firewall.for_each Firewall.add_server kwik_proxy_secure.Prelude.text_eq
    Firewall.add_tun Firewall.add_dns classify holds Firewall.add_app
enable-no_ipv6_example =
    enable-no_ipv6 weighing std_example api_example full 5 quiet on engine_on to_self refl refl refl
      refl refl

enable-dns_sealed_example :
    (f : Filter) × Expected std_example api_example full f
    × Hits std_example api_example full weighing f tunnelled
    × (f.action ≡ permit)
    × (9 < f.weight)
unfolding enable_blocking Firewall.install Firewall.add_base Firewall.add_exceptions
    Firewall.add_lan Firewall.for_each Firewall.add_server kwik_proxy_secure.Prelude.text_eq
    Firewall.add_tun Firewall.add_dns holds classify Firewall.add_app
enable-dns_sealed_example =
    enable-dns_sealed weighing std_example api_example full 5 quiet on engine_on tunnelled 17 refl
      refl refl udp refl refl refl

enable-keeps_tunnel_example : classify engine_on.filters tunnelled ≡ permit
unfolding enable_blocking Firewall.install Firewall.add_base Firewall.add_exceptions
    Firewall.add_lan Firewall.for_each Firewall.add_server kwik_proxy_secure.Prelude.text_eq
    Firewall.add_tun Firewall.add_dns holds
enable-keeps_tunnel_example =
    enable-keeps_tunnel weighing std_example api_example full 5 quiet on engine_on tunnelled
      (record { if_index = 7; luid = 42 }) refl refl refl refl refl

-- The filter that is added last.
abbrev last_block : Filter
last_block = record {
  layer = connect_v6;
  weight = 9;
  action = block;
  conditions = remote_port 53 ∷ protocol 6 ∷ [];
}
