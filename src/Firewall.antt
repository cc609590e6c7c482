-- ===== src/Firewall.antt =====
-- src-tauri/src/bin/kwik_helper/firewall.rs: the kill switch. Its two globals, the engine and the
-- heartbeat, are the record `Firewall`; a call takes the state and returns the new one. Log lines
-- are left out, and a `spawn_blocking` task is taken not to panic.
pub mod Expected
pub mod Install
pub mod Arbitration
pub mod KillSwitch
pub mod Presence
pub mod Leaks
pub mod Bounds
pub mod Weighing
use kwik_proxy_secure.Net.{Std, Ipv4Addr, Ipv6Addr}
use kwik_proxy_secure.Prelude.{
  ℕ, ◌+◌, ◌-◌, ◌*◌, ◌^◌, Text, codes, starts_with, Bool, true, false, ◌||◌, List, [], ◌∷◌, Option,
  none, some, Result, ok, err, ◌>>=◌, ◌>>◌, if◌then◌else◌, ltb, not,
}
use kwik_proxy_secure.Tun.{OwnedTunInterface}
use kwik_proxy_secure.Wfp
use kwik_proxy_secure.Wfp.{Api, Tx, Error, WfpEngine, Layer, connect_v4, connect_v6, Filter}

-- The weights `W_…`, from the lowest; a block-all filter has weight 0.
abbrev pub w_lan : ℕ
w_lan = 8

abbrev pub w_dns_block : ℕ
w_dns_block = 9

abbrev pub w_loopback : ℕ
w_loopback = 10

abbrev pub w_server : ℕ
w_server = 12

abbrev pub w_app : ℕ
w_app = 13

abbrev pub w_dns_permit : ℕ
w_dns_permit = 14

abbrev pub w_tun_interface : ℕ
w_tun_interface = 15

abbrev pub ipproto_tcp : ℕ
ipproto_tcp = 6

abbrev pub ipproto_udp : ℕ
ipproto_udp = 17

abbrev pub watchdog_timeout_secs : ℕ
watchdog_timeout_secs = 60

-- The arguments of `enable`.
pub record EnableArgs : Type 0 where
  pub server_ips : List Text
  pub allow_lan : Bool
  pub allow_app_paths : List Text
  pub block_dns : Bool
  pub allow_dns_ips : List Text
  pub tun_interface : Option OwnedTunInterface
  pub strict_mode : Bool
  pub force_disable_ipv6 : Bool

-- `ENGINE`, `LAST_HEARTBEAT` (`none` is its sentinel `i64::MIN`) and the watchdog's `STARTED`.
pub record Firewall : Type 0 where
  pub engine : Option WfpEngine
  pub last_heartbeat : Option ℕ
  pub watchdog_started : Bool

-- `(o0 << 24) | (o1 << 16) | (o2 << 8) | o3`.
unfoldable pub ipv4_to_u32 : Ipv4Addr → ℕ
ipv4_to_u32 addr = addr.a * 2 ^ 24 + addr.b * 2 ^ 16 + addr.c * 2 ^ 8 + addr.d

-- What the three literals of `ipv6_addr_octets` spell.
abbrev pub loopback_v6 : ℕ
loopback_v6 = 1

abbrev pub link_local_v6 : ℕ
link_local_v6 = 0xfe80 * 2 ^ 112

abbrev pub multicast_v6 : ℕ
multicast_v6 = 0xff00 * 2 ^ 112

abbrev pub is_engine_label : Text → Bool
is_engine_label lower =
    starts_with lower (codes "xray")
    || starts_with lower (codes "mihomo")
    || starts_with lower (codes "clash")

module _ (std : Std) (api : Api) (args : EnableArgs) where
  open args use {allow_lan, block_dns, strict_mode, force_disable_ipv6}

  unfoldable pub add_base : Tx
  unfolding Wfp.add_provider Wfp.add_sublayer Wfp.add_filter_block_all
      Wfp.add_filter_allow_v4_subnet Wfp.add_filter_allow_v6_addr
  add_base fs0 = do
    fs1 ← Wfp.add_provider api fs0
    fs2 ← Wfp.add_sublayer api fs1
    fs3 ← Wfp.add_filter_block_all api connect_v4 fs2
    fs4 ← Wfp.add_filter_block_all api connect_v6 fs3
    fs5 ← Wfp.add_filter_allow_v4_subnet api connect_v4 w_loopback 0x7F00_0000 0xFF00_0000 fs4
    Wfp.add_filter_allow_v6_addr api connect_v6 w_loopback loopback_v6 fs5

  abbrev pub add_lan_v4 : ℕ → ℕ → Tx
  add_lan_v4 = Wfp.add_filter_allow_v4_subnet api connect_v4 w_lan

  unfoldable pub add_lan_v6 : Tx
  unfolding Wfp.add_filter_allow_v6_subnet
  add_lan_v6 fs = do
    fs1 ← Wfp.add_filter_allow_v6_subnet api connect_v6 w_lan link_local_v6 10 fs
    Wfp.add_filter_allow_v6_subnet api connect_v6 w_lan multicast_v6 8 fs1

  unfoldable pub add_lan : Tx
  unfolding Wfp.add_filter_allow_v4_subnet add_lan_v6
  add_lan fs = if not allow_lan then ok fs else (do
    fs1 ← add_lan_v4 0x0A00_0000 0xFF00_0000 fs
    fs2 ← add_lan_v4 0xAC10_0000 0xFFF0_0000 fs1
    fs3 ← add_lan_v4 0xC0A8_0000 0xFFFF_0000 fs2
    fs4 ← add_lan_v4 0xA9FE_0000 0xFFFF_0000 fs3
    if force_disable_ipv6 then ok fs4 else add_lan_v6 fs4)

  unfoldable pub add_server_v6 : Text → Tx
  unfolding Wfp.add_filter_allow_v6_addr
  add_server_v6 ip fs = elim (std.ipv6 ip) [
    | none ↦ ok fs
    | some addr ↦
        if force_disable_ipv6
        then ok fs
        else Wfp.add_filter_allow_v6_addr api connect_v6 w_server addr.bits fs
  ]

  unfoldable pub add_server : Text → Tx
  unfolding Wfp.add_filter_allow_v4_addr ipv4_to_u32 add_server_v6
  add_server ip fs = elim (std.ipv4 ip) [
    | some addr ↦ Wfp.add_filter_allow_v4_addr api connect_v4 w_server (ipv4_to_u32 addr) fs
    | none ↦ add_server_v6 ip fs
  ]

  -- `path.file_name()`, or the path as it is displayed.
  abbrev pub app_label : Text → Text
  app_label path = elim (std.file_name path) [ none ↦ path | some name ↦ name ]

  abbrev pub is_strict_engine : Text → Bool
  is_strict_engine path =
      if strict_mode then is_engine_label (std.to_lowercase (app_label path)) else false

  unfoldable pub add_app_v6 : Text → List Filter → List Filter
  unfolding Wfp.add_filter_allow_app
  add_app_v6 path fs =
      if force_disable_ipv6
      then fs
      else elim (Wfp.add_filter_allow_app api connect_v6 w_app path fs) [
        | ok fs2 ↦ fs2
        | err e ↦ fs
      ]

  -- A path whose filter is refused is passed over.
  unfoldable pub add_app : Text → List Filter → List Filter
  unfolding Wfp.add_filter_allow_app add_app_v6 starts_with
  add_app path fs =
      if is_strict_engine path
      then fs
      else elim (Wfp.add_filter_allow_app api connect_v4 w_app path fs) [
        | ok fs1 ↦ add_app_v6 path fs1
        | err e ↦ fs
      ]

  unfoldable pub add_tun : Tx
  unfolding Wfp.add_filter_allow_local_interface_luid
  add_tun fs = elim args.tun_interface [
    | none ↦ ok fs
    | some interface ↦ do
      fs1 ←
          Wfp.add_filter_allow_local_interface_luid api connect_v4 w_tun_interface interface.luid fs
      if force_disable_ipv6
          then ok fs1
          else Wfp.add_filter_allow_local_interface_luid api connect_v6 w_tun_interface
              interface.luid fs1
  ]

  unfoldable pub add_dns_permit : Text → Tx
  unfolding Wfp.add_filter_allow_v4_addr_port_proto ipv4_to_u32
  add_dns_permit ip fs = elim (std.ipv4 ip) [
    | none ↦ ok fs
    | some v4 ↦ do
      let addr = ipv4_to_u32 v4
      fs1 ←
          Wfp.add_filter_allow_v4_addr_port_proto api connect_v4 w_dns_permit addr 53 ipproto_udp fs
      Wfp.add_filter_allow_v4_addr_port_proto api connect_v4 w_dns_permit addr 53 ipproto_tcp fs1
  ]

  unfoldable pub add_dns_block : Layer → Tx
  unfolding Wfp.add_filter_block_port_proto
  add_dns_block layer fs = do
    fs1 ← Wfp.add_filter_block_port_proto api layer w_dns_block 53 ipproto_udp fs
    Wfp.add_filter_block_port_proto api layer w_dns_block 53 ipproto_tcp fs1

  -- `for item in items { step(item)?; }`.
  unfoldable pub for_each : (Text → Tx) → List Text → Tx
  for_each step [] fs = ok fs
  for_each step (item ∷ items) fs = step item fs >>= for_each step items

  unfoldable pub add_dns : Tx
  unfolding add_dns_permit add_dns_block for_each
  add_dns fs = if not block_dns then ok fs else (do
    fs1 ← for_each add_dns_permit args.allow_dns_ips fs
    fs2 ← add_dns_block connect_v4 fs1
    add_dns_block connect_v6 fs2)

  -- The closure that `enable_blocking` hands to the transaction: the base filters, then the rest.
  unfoldable pub add_exceptions : Tx
  add_exceptions fs1 = do
    fs2 ← add_lan fs1
    fs3 ← for_each add_server args.server_ips fs2
    fs4 ← for_each (λ path gs. ok (add_app path gs)) args.allow_app_paths fs3
    fs5 ← add_tun fs4
    add_dns fs5

  unfoldable pub install : Tx
  install fs = do fs1 ← add_base fs; add_exceptions fs1

  -- The engine that `enable_blocking` ends with, if no step fails.
  unfoldable pub new_engine : Result Error WfpEngine
  unfolding Wfp.open_dynamic Wfp.transaction
  new_engine = do engine ← Wfp.open_dynamic api; Wfp.transaction api engine install

  -- The old engine is dropped first; a failure leaves none.
  unfoldable pub enable_blocking : ℕ → Firewall → Firewall × Result Error (Unit {0})
  unfolding new_engine
  enable_blocking now fw = elim new_engine [
    | err e ↦ (record fw { engine = none }, err e)
    | ok engine ↦
        (record { engine = some engine; last_heartbeat = some now; watchdog_started = true }, ok tt)
  ]

unfoldable pub heartbeat : ℕ → Firewall → Firewall
heartbeat now fw = record fw { last_heartbeat = some now }

-- `disable_blocking`; the result is that of the explicit cleanup.
unfoldable pub disable_blocking : Api → Firewall → Firewall × Result Error (Unit {0})
unfolding Wfp.cleanup_provider
disable_blocking api fw =
    (record fw { engine = none; last_heartbeat = none }, Wfp.cleanup_provider api)

unfoldable pub expire : Option ℕ → ℕ → Firewall → Firewall
expire none now fw = fw
expire (some last) now fw =
    if ltb watchdog_timeout_secs (now - last)
    then record fw { engine = none; last_heartbeat = none }
    else fw

-- One round of the watchdog thread. It drops the result of its call of `cleanup_provider` as well.
unfoldable pub watchdog : ℕ → Firewall → Firewall
unfolding expire
watchdog now fw = if fw.watchdog_started then expire fw.last_heartbeat now fw else fw

unfoldable pub cleanup_on_startup : Api → Result Error (Unit {0})
unfolding Wfp.cleanup_provider
cleanup_on_startup api = Wfp.cleanup_provider api
