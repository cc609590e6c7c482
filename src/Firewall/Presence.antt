-- ===== src/Firewall/Presence.antt =====
-- src-tauri/src/bin/kwik_helper/firewall.rs: filters that are certain to stand in a kill switch, and
-- the weights of those that block.
use mathlib.Core.Path.{subst}
use kwik_proxy_secure.Net.{Std}
use kwik_proxy_secure.Prelude.{
  ℕ, ◌≤◌, true, List, [], ◌∷◌, some, ok, ◌≡◌, ◌⊎◌, refl, sym, inl, inr, Member, Member-append_right,
  >>=-eq-ok, arith,
}
use kwik_proxy_secure.Tun.{OwnedTunInterface}
use kwik_proxy_secure.Wfp.{
  Api, Layer, connect_v4, connect_v6, Filter, permit, block, WfpEngine, remote_port, protocol,
  local_interface,
}
use kwik_proxy_secure.Firewall.{
  EnableArgs, add_lan, for_each, add_tun, add_dns, add_dns_permit, add_dns_block, add_exceptions,
  new_engine, w_dns_block, w_tun_interface, ipproto_udp, ipproto_tcp,
}
use kwik_proxy_secure.Firewall.Expected.{Expected, Adds, rule, DnsProtocol, udp, tcp}
use kwik_proxy_secure.Firewall.Install.{add_dns-Safe}
use kwik_proxy_secure.Firewall.KillSwitch.{new_engine_lem, install_split}

module _ (std : Std) (api : Api) (args : EnableArgs) where
  pub Expected-block :
      (f : Filter) → Expected std api args f → f.action ≡ block → f.weight ≤ w_dns_block
  Expected-block f (Expected.fallback l e) b = ground arith
  Expected-block f (Expected.loopback_four e) b = ground arith
  Expected-block f (Expected.loopback_six e) b = ground arith
  Expected-block f (Expected.lan_four n m s on e) b = ground arith
  Expected-block f (Expected.lan_six n m s on off e) b = ground arith
  Expected-block f (Expected.server_four ip a m p e) b = ground arith
  Expected-block f (Expected.server_six ip a m p off e) b = ground arith
  Expected-block f (Expected.app_four q c m s i e) b = ground arith
  Expected-block f (Expected.app_six q c m s i off e) b = ground arith
  Expected-block f (Expected.tun_four i t e) b = ground arith
  Expected-block f (Expected.tun_six i t off e) b = ground arith
  Expected-block f (Expected.dns_permit ip a c d on m p e) b = ground arith
  Expected-block f (Expected.dns_block l c d on e) b = ground arith

  -- The last two steps of the transaction.
  last_steps :
      (gs hs : List Filter)
      → add_exceptions std api args gs ≡ ok hs
      → (fs4 fs5 : List Filter) × (add_tun std api args fs4 ≡ ok fs5)
        × (add_dns std api args fs5 ≡ ok hs)
  unfolding add_exceptions
  last_steps gs hs e =
      let (fs2, lan, e2) = >>=-eq-ok (add_lan std api args gs) _ e in
      let (fs3, servers, e3) = >>=-eq-ok (for_each std api args _ _ fs2) _ e2 in
      let (fs4, apps, e4) = >>=-eq-ok (for_each std api args _ _ fs3) _ e3 in
      let (fs5, tun, dns) = >>=-eq-ok (add_tun std api args fs4) _ e4 in (fs4, fs5, tun, dns)

  pub new_engine-last_steps :
      (engine : WfpEngine)
      → new_engine std api args ≡ ok engine
      → (fs4 fs5 : List Filter) × (add_tun std api args fs4 ≡ ok fs5)
        × (add_dns std api args fs5 ≡ ok engine.filters)
  new_engine-last_steps engine e =
      let (gs, based, rest) =
        install_split std api args _ (new_engine_lem std api args engine e).0 in
      last_steps gs engine.filters rest

  Adds-Member :
      (f : Filter) (fs gs : List Filter) → Adds std api args fs gs → Member f fs → Member f gs
  Adds-Member f fs gs a m = subst (Member f) (sym a.grown) (Member-append_right f a.fresh fs m)

  add_dns_block_lem :
      (l : Layer) (fs gs : List Filter)
      → add_dns_block std api args l fs ≡ ok gs
      → gs
        ≡ rule l w_dns_block block (remote_port 53 ∷ protocol ipproto_tcp ∷ [])
          ∷ rule l w_dns_block block (remote_port 53 ∷ protocol ipproto_udp ∷ [])
          ∷ fs
  unfolding add_dns_block
  add_dns_block_lem l fs gs e = ground arith

  add_dns_lem :
      (fs hs : List Filter)
      → args.block_dns ≡ true
      → add_dns std api args fs ≡ ok hs
      → (l : Layer) (proto : ℕ) → DnsProtocol proto
      → Member (rule l w_dns_block block (remote_port 53 ∷ protocol proto ∷ [])) hs
  unfolding add_dns
  add_dns_lem fs hs on e =
      let (fs1, permits, e1) =
        >>=-eq-ok (for_each std api args (add_dns_permit std api args) args.allow_dns_ips fs) _
          (rw on at e) in
      let (fs2, four, six) = >>=-eq-ok (add_dns_block std api args connect_v4 fs1) _ e1 in
      blocks fs1 fs2 (add_dns_block_lem connect_v4 fs1 fs2 four)
        (add_dns_block_lem connect_v6 fs2 hs six)
    where
      blocks :
          (fs1 fs2 : List Filter)
          → fs2
            ≡ rule connect_v4 w_dns_block block (remote_port 53 ∷ protocol ipproto_tcp ∷ [])
              ∷ rule connect_v4 w_dns_block block (remote_port 53 ∷ protocol ipproto_udp ∷ [])
              ∷ fs1
          → hs
            ≡ rule connect_v6 w_dns_block block (remote_port 53 ∷ protocol ipproto_tcp ∷ [])
              ∷ rule connect_v6 w_dns_block block (remote_port 53 ∷ protocol ipproto_udp ∷ [])
              ∷ fs2
          → (l : Layer) (proto : ℕ) → DnsProtocol proto
          → Member (rule l w_dns_block block (remote_port 53 ∷ protocol proto ∷ [])) hs
      blocks fs1 fs2 four six connect_v4 proto udp = rw (six, four) (inr (inr (inr (inl refl))))
      blocks fs1 fs2 four six connect_v4 proto tcp = rw (six, four) (inr (inr (inl refl)))
      blocks fs1 fs2 four six connect_v6 proto udp = rw six (inr (inl refl))
      blocks fs1 fs2 four six connect_v6 proto tcp = rw six (inl refl)

  -- The four filters that block port 53 outside the tunnel.
  pub dns_block-Member :
      (engine : WfpEngine)
      → new_engine std api args ≡ ok engine
      → args.block_dns ≡ true
      → (l : Layer) (proto : ℕ) → DnsProtocol proto
      → Member (rule l w_dns_block block (remote_port 53 ∷ protocol proto ∷ [])) engine.filters
  dns_block-Member engine e on =
      let (fs4, fs5, tun, dns) = new_engine-last_steps engine e in
      add_dns_lem fs5 engine.filters on dns

  add_tun_cases :
      (i : OwnedTunInterface) (fs gs : List Filter)
      → args.tun_interface ≡ some i
      → add_tun std api args fs ≡ ok gs
      → (gs ≡ rule connect_v4 w_tun_interface permit (local_interface i.luid ∷ []) ∷ fs)
        ⊎ (gs
            ≡ rule connect_v6 w_tun_interface permit (local_interface i.luid ∷ [])
              ∷ rule connect_v4 w_tun_interface permit (local_interface i.luid ∷ [])
              ∷ fs)
  unfolding add_tun
  add_tun_cases i fs gs t e = ground arith

  add_tun_lem :
      (i : OwnedTunInterface) (fs gs : List Filter)
      → args.tun_interface ≡ some i
      → add_tun std api args fs ≡ ok gs
      → Member (rule connect_v4 w_tun_interface permit (local_interface i.luid ∷ [])) gs
  add_tun_lem i fs gs t e = elim (add_tun_cases i fs gs t e) [
    | inl four ↦ rw four (inl refl)
    | inr both ↦ rw both (inr (inl refl))
  ]

  pub tun-Member :
      (engine : WfpEngine) (i : OwnedTunInterface)
      → new_engine std api args ≡ ok engine
      → args.tun_interface ≡ some i
      → Member (rule connect_v4 w_tun_interface permit (local_interface i.luid ∷ [])) engine.filters
  tun-Member engine i e t =
      let (fs4, fs5, tun, dns) = new_engine-last_steps engine e in
      Adds-Member _ fs5 engine.filters (add_dns-Safe std api args fs5 engine.filters dns)
        (add_tun_lem i fs4 fs5 t tun)
