-- ===== src/Lib.antt =====
-- KwikProxy Secure: the privileged helper, in src-tauri/src/bin/kwik_helper, and the routing profiles and
-- the Mihomo configuration of the application, in src-tauri/src/config.
--
-- The helper is a Windows service that the application asks, over a pipe, to guard the machine with
-- filters (the kill switch), to run the Mihomo engine as SYSTEM, and to undo both. Its parts:
--
--   Wfp        wfp.rs: an engine handle of the Windows Filtering Platform, its transactions and the
--              filters that can be added (`transaction`, `add_filter_…`, `cleanup_provider`).
--   Firewall   firewall.rs: `enable_blocking`, `disable_blocking`, `heartbeat`, the watchdog's round.
--              The globals ENGINE and LAST_HEARTBEAT are the record `Firewall`. Expected lists the
--              filters that the arguments call for, Install and Presence follow the transaction, and
--              Leaks says what the filters let through, for any `Arbitration`: the documented rule
--              that the matching filter of the highest weight decides. Weighing is one.
--   Tun        tun.rs and `luid_from_index` of routing.rs: finding the adapter that the product owns
--              (Identity) and waiting for it to go (Waiting).
--   Mihomo     mihomo.rs: Config holds the checks of the configuration and Accepted what passes them;
--              `start`, `stop`, `stop_owned` and the exit monitor act on the global STATE, which is an
--              `Option Tunnel`; Readiness is about the loop of a start, Stopping about a stop.
--   Broker     dispatch.rs: `ActiveOwner` and `BrokerState`, which session owns what.
--   Dispatch   dispatch.rs and protocol.rs: `handle` and `handle_mutating`, one function per request
--              and one per point at which a request branches on a result.
--   System     `on_tunnel_process_exit`, `shutdown_cleanup`, and histories: `step` is a request, a round
--              of an exit monitor, its report, a round of the watchdog, or the shutdown. Ownership,
--              Handlers, Tunnels, Exits and Invariant prove the invariant; Foreign, Shutdown, Outcomes,
--              Starting, Instances, Expiry and Failing are about single operations.
--   Pipe       pipe.rs: Framing is about the one request of a connection, which Dispatch then handles,
--              Serving about the accept loop, whose rounds are given by what happens in each.
--   Security   security.rs: the checks of `Installation::load`; Paths is about the files that it opens,
--              Trusted about the installation, Clients about `authenticate_client` and whose requests
--              are dispatched.
--   Cleanup    security.rs: the bounded removal of trees (`remove_bounded_tree_no_follow`) on a tree
--              whose entries carry the answers of the system; Bounds says what a success has done,
--              Complete which trees are removed, Install is about the install directory.
--   Web        src-tauri/src/config/routing_profile.rs: which addresses (Addresses, Blocks), URLs (Hosts)
--              and DNS endpoints (Endpoints) count as public remote ones.
--   Profile    the same file: the parsing and validation of routing profiles; Valid is what passes.
--   Store      src-tauri/src/config/routing_store.rs: the store of profiles and its directory. Keys and
--              Changes are about lookups, Loading about a start; Effects is what an operation does in
--              memory, Invariant and Names what each keeps, Reached the histories, Refinement the view
--              as a function from ids to entries, Restart and Reload what a restart finds. Fetching and
--              Confined are the download, Scheduler and Refreshing a tick of the scheduler.
--   Yaml       serde_yaml's `Mapping` as the application edits it; Laws is about lookups after edits.
--   ClientConfig  src-tauri/src/config/mihomo_config.rs: what the application writes for Mihomo. Rules
--              holds the rules and their targets (Fields, Kinds, SplitTunnel and Terminal say what they
--              read as), Dns the `dns` and `sniffer` sections, Sanitize the checks of settings and
--              providers, Reduce `sanitize_full_profile`, Patch `patch_full_yaml`, Build `build`. The
--              children of Patch follow a section through the stages (Kept, Quiet, Inbound, Providers,
--              Sanitized, Document, and Ordered for the rules); Passing is about the helper's
--              checks, and Launched composes both; the children of Build do the same for `build`.
--   Ports      src-tauri/src/vpn/ports.rs of the application: the ports of the proxy listeners.
--   Net, Prelude  addresses and the parameters that stand for `std`; lists, texts and results.
--   Tests      a concrete host, on which the theorems are applied.
--
-- What Windows, the file system, the process and the clock answer are records of functions (`Api`,
-- `Adapters`, `Host`, `Os`), and serde_yaml and the parsers of `std` are `Parsers` and `Std`: each is a
-- parameter of the operations, and none is taken to succeed. An operation returns the new state with
-- its result. The code holds the broker's lock through a request that changes state, so a request is
-- one step; the exit monitor and the watchdog take their own locks and are steps of their own. Between
-- the check and the stop of `stop_owned` the code gives up the lock of STATE; only the exit monitor can
-- use that, and a stop that finds nothing succeeds.
--
-- The two loops that wait for an adapter to go are bounded by two seconds of a clock and pause 100 ms,
-- and the readiness loop by ten seconds and 100 ms. They run on fuel, with an error `stalled` of their
-- own; 21 rounds and 101 polls are enough.
--
-- The parsers of JSON, base64, URLs and UUIDs are `Codec`, `EntryCodec` and `Urls`. The recursion of the
-- removal is on the tree, with the code's depth and budget as they are; that of the store, the download
-- and the accept loop is on the lists of entries, redirects, chunks and rounds.
-- In ClientConfig the YAML library, the URL parser, Unicode's upper case and SHA-256 are `Libs`. A number
-- of a YAML document is a natural number, which the mappings write.
--
-- Not modelled: log lines and display names; the marshalling of filters into Windows structures; the
-- copying of the geofiles and the handles of log and job, of which only success or failure is kept; the
-- watchdog's call of `cleanup_provider`, whose result the code drops; the texts of errors; the creation
-- of a pipe instance and which codes of Windows count as transient; the timer of the scheduler. Nor are
-- the other parts of the program: service control, the rest of security.rs (ACLs, the
-- provisioning, the runtime marker) and of routing.rs, the rest of the application (the mappers of
-- the protocols in mihomo_config.rs, whose result `build` takes as an argument, the other files of
-- src-tauri/src/config, platform, ipc, and vpn but for its ports) and the user interface.
pub mod Prelude
pub mod Net
pub mod Wfp
pub mod Tun
pub mod Firewall
pub mod Mihomo
pub mod Broker
pub mod Dispatch
pub mod System
pub mod Pipe
pub mod Security
pub mod Cleanup
pub mod Web
pub mod Profile
pub mod Store
pub mod Yaml
pub mod ClientConfig
pub mod Ports
pub mod Tests
