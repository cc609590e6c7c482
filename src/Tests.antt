-- ===== src/Tests.antt =====
-- Runs of the model at concrete inputs: a host on which every call succeeds, and one on which the
-- child has exited. Each child module applies the theorems of one part.
mod Filters
mod Requests
mod Loading
mod Pipes
mod Routing
mod Child
mod Launch
use kwik_proxy_secure.Broker.{Installation, ActiveOwner}
use kwik_proxy_secure.Dispatch.{Os, Client, Helper, KillSwitch}
use kwik_proxy_secure.Firewall.{EnableArgs, Firewall}
use kwik_proxy_secure.Mihomo.{Host, Tunnel, running, exited, reaped, ChildStatus}
use kwik_proxy_secure.Mihomo.Config.{Parsers, Value, Mapping, entry, end}
use kwik_proxy_secure.Net.{Std, Ipv4Addr, v4}
use kwik_proxy_secure.Prelude.{
  ℕ, ◌*◌, Text, codes, text_eq, true, false, [], ◌∷◌, none, some, if◌then◌else◌, Option, List,
}
use kwik_proxy_secure.Tun.{Adapters, IfRow}
use kwik_proxy_secure.Wfp.{Api, success}

abbrev pub server_address : Text
server_address = codes "1.2.3.4"

abbrev pub device : Text
device = codes "kwikproxy-secure-a"

abbrev pub std_example : Std
std_example = record {
  ipv4 =
      λ t. if text_eq t server_address then some (record { a = 1; b = 2; c = 3; d = 4 }) else none;
  ipv6 = λ t. none;
  file_name = λ t. none;
  to_lowercase = λ t. t;
  from_wide_lossy = λ t. t;
}

-- Every call succeeds.
abbrev pub api_example : Api
api_example = record {
  engine_open = λ d. true;
  transaction_begin = true;
  transaction_commit = true;
  provider_add = true;
  sublayer_add = true;
  filter_add = λ fs f. true;
  app_id_from_file_name = λ t. some t;
  sublayer_delete = success;
  provider_delete = success;
  sublayer_get = success;
}

abbrev pub row : IfRow
row = record { if_index = 7; luid = 42; oper_status = 1; alias = codes "kwikproxy-secure-a" }

abbrev pub adapters_up : Adapters
adapters_up = record {
  table = λ k. some (row ∷ []);
  luid_of_index = λ k i. some 42;
  elapsed = λ k. k * 100;
}

abbrev pub adapters_down : Adapters
adapters_down = record { table = λ k. some []; luid_of_index = λ k i. none; elapsed = λ k. k * 100 }

abbrev pub config_value : Value
config_value = Value.mapping (
    entry (Value.string (codes "external-controller")) (Value.string (codes "127.0.0.1:9090")) (
      entry (Value.string (codes "secret")) (Value.string (codes "s")) (
        entry (Value.string (codes "tun"))
          (Value.mapping (
            entry (Value.string (codes "enable")) (Value.bool true)
              (entry (Value.string (codes "device")) (Value.string device) end)))
          end)))

abbrev pub parsers_example : Parsers
parsers_example = record {
  yaml = λ t. some config_value;
  socket_addr =
      λ t. some (record { ip = v4 (record { a = 127; b = 0; c = 0; d = 1 }); port = 9090 });
  is_absolute = λ t. false;
  has_parent_dir = λ t. false;
}

abbrev pub instance : Text
instance = codes "i1"

abbrev pub host_with : ChildStatus → Host
host_with s = record {
  runtime_dir = true;
  geofiles = true;
  config_written = true;
  log_opened = true;
  job_created = true;
  spawned = some 77;
  process_handle = true;
  job_assigned = true;
  status = λ k. s;
  controller = λ k. true;
  adapters = adapters_up;
  instance_id = instance;
  kill = true;
  wait = reaped;
}

abbrev pub os_with : Adapters → ChildStatus → Os
os_with adapters s = record {
  std = std_example;
  parsers = parsers_example;
  wfp = api_example;
  host = host_with s;
  adapters = adapters;
  now = 5;
  helper_version = codes "1";
  log_tail = [];
  cleanup_rounds = 21;
  readiness_rounds = 101;
}

abbrev pub installed : Installation
installed = record {
  generation = codes "g";
  ui_path = codes "ui";
  helper_path = codes "helper";
  mihomo_path = codes "mihomo";
}

abbrev pub caller : Client
caller = record { session_id = 1; pid = 9 }

abbrev pub stranger : Client
stranger = record { session_id = 2; pid = 10 }

abbrev pub quiet : Firewall
quiet = record { engine = none; last_heartbeat = none; watchdog_started = false }

abbrev pub idle : Helper
idle = record { broker = record { owner = none }; firewall = quiet; tunnel = none }

abbrev pub tunnel_example : Tunnel
tunnel_example = record {
  pid = 77;
  session_id = 1;
  generation = codes "g";
  tun_device = device;
  instance_id = instance;
}

abbrev pub owner_example : ActiveOwner
owner_example = record {
  generation = codes "g";
  session_id = 1;
  last_pid = 9;
  tunnel_active = true;
  firewall_active = false;
  tun_device = some device;
  tunnel_pid = some 77;
  tunnel_instance_id = some instance;
}

abbrev pub running_helper : Helper
running_helper = record {
  broker = record { owner = some owner_example };
  firewall = quiet;
  tunnel = some tunnel_example;
}

abbrev pub guard : KillSwitch
guard = record {
  server_ips = server_address ∷ [];
  allow_lan = true;
  block_dns = true;
  allow_dns_ips = server_address ∷ [];
  strict_mode = true;
  expect_tun = true;
  force_disable_ipv6 = true;
}
