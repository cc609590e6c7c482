-- ===== src/System/Ownership.antt =====
-- The ownership invariant of the helper: src-tauri/src/bin/kwik_helper/dispatch.rs promises that
-- privileged resources always have a recorded owner. The predicates, and the steps of the broker.
use mathlib.Core.Path.{subst}
use kwik_proxy_secure.Broker.{
  BrokerState, ActiveOwner, Installation, Foreign, owner_active, new_owner, owner_matches,
  bind_or_verify, bind_owner, as_state, release_if_idle,
}
use kwik_proxy_secure.Dispatch.{Helper, release, finish, Cause}
use kwik_proxy_secure.Firewall.{Firewall}
use kwik_proxy_secure.Mihomo.{Tunnel}
use kwik_proxy_secure.Prelude.{
  ℕ, Text, text_eq_iff, true, Option, none, some, Result, ok, err, ◌≡◌, refl, sym, arith,
  Bool-cases, inl, inr,
}
use kwik_proxy_secure.Wfp.{WfpEngine}

-- A recorded owner holds something.
abbrev pub Busy : Option ActiveOwner → Type 0
Busy none = Unit
Busy (some o) = owner_active o ≡ true

-- A tunnel in `STATE` is the one that the owner started.
pub record Started (o : ActiveOwner) (t : Tunnel) : Type 0 where
  pub marked : o.tunnel_active ≡ true
  pub session : o.session_id ≡ t.session_id
  pub generation : o.generation ≡ t.generation
  pub device : o.tun_device ≡ some t.tun_device
  pub pid : o.tunnel_pid ≡ some t.pid
  pub instance_id : o.tunnel_instance_id ≡ some t.instance_id

abbrev pub Runs : Option ActiveOwner → Option Tunnel → Type 0
Runs o none = Unit
Runs none (some t) = ⊥
Runs (some o) (some t) = Started o t

-- An engine with filters belongs to an owner that knows of it.
abbrev pub Filters : Option ActiveOwner → Option WfpEngine → Type 0
Filters o none = Unit
Filters none (some e) = ⊥
Filters (some o) (some e) = o.firewall_active ≡ true

-- What holds within a request, and what holds between requests.
pub record IsCovered (h : Helper) : Type 0 where
  pub runs : Runs h.broker.owner h.tunnel
  pub filters : Filters h.broker.owner h.firewall.engine

pub record IsOwned (h : Helper) : Type 0 where
  pub busy : Busy h.broker.owner
  pub runs : Runs h.broker.owner h.tunnel
  pub filters : Filters h.broker.owner h.firewall.engine

pub IsOwned-IsCovered : (h : Helper) → IsOwned h → IsCovered h
IsOwned-IsCovered h i = record { runs = i.runs; filters = i.filters }

abbrev pub helper : Option ActiveOwner → Firewall → Option Tunnel → Helper
helper o fw t = record { broker = record { owner = o }; firewall = fw; tunnel = t }

release_parts :
    (o : Option ActiveOwner) (fw : Firewall) (t : Option Tunnel) (e : Option WfpEngine)
    → Runs o t
    → Filters o e
    → Busy (release (helper o fw t)).broker.owner
      × Runs (release (helper o fw t)).broker.owner t
      × Filters (release (helper o fw t)).broker.owner e
unfolding release_if_idle
release_parts none fw t e r f = (tt, r, f)
release_parts (some o) fw none none r f = (ground arith, tt, tt)
release_parts (some o) fw (some t) none r f = (ground arith, ground arith, tt)
release_parts (some o) fw none (some e) r f = (ground arith, tt, ground arith)
release_parts (some o) fw (some t) (some e) r f = (ground arith, ground arith, ground arith)

pub release-IsOwned : (h : Helper) → IsCovered h → IsOwned (release h)
release-IsOwned h c =
    let (busy, runs, filters) =
      release_parts h.broker.owner h.firewall h.tunnel h.firewall.engine c.runs c.filters in
    record { busy = busy; runs = runs; filters = filters }

-- A request that ends in a failure releases; one that succeeds must leave a busy owner.
pub finish_err-IsOwned :
    (h : Helper) (cause : Cause) → IsCovered h → IsOwned (finish h (err cause)).0
finish_err-IsOwned h cause c = release-IsOwned h c

-- What `bind_or_verify` leaves: an owner of the calling session, and all else as it was.
pub record Binds (o o' : Option ActiveOwner) (generation : Text) (session_id : ℕ) : Type 0 where
  pub owner : ActiveOwner
  pub is_owner : o' ≡ some owner
  pub session : owner.session_id ≡ session_id
  pub same_generation : owner.generation ≡ generation
  pub keeps_runs : (t : Option Tunnel) → Runs o t → Runs o' t
  pub keeps_filters : (e : Option WfpEngine) → Filters o e → Filters o' e
  pub keeps_device :
      (d : Text) (a : ActiveOwner) → o ≡ some a → a.tun_device ≡ some d → owner.tun_device ≡ some d

keeps_Runs-none : (o : ActiveOwner) (t : Option Tunnel) → Runs none t → Runs (some o) t
keeps_Runs-none o none r = tt
keeps_Runs-none o (some t) r = elim r [ ]

keeps_Filters-none : (o : ActiveOwner) (e : Option WfpEngine) → Filters none e → Filters (some o) e
keeps_Filters-none o none r = tt
keeps_Filters-none o (some e) r = elim r [ ]

rebound-Runs :
    (o : ActiveOwner) (pid : ℕ) (t : Option Tunnel)
    → Runs (some o) t
    → Runs (some (record o { last_pid = pid })) t
rebound-Runs o pid none r = tt
rebound-Runs o pid (some t) r = record {
  marked = r.marked;
  session = r.session;
  generation = r.generation;
  device = r.device;
  pid = r.pid;
  instance_id = r.instance_id;
}

rebound-Filters :
    (o : ActiveOwner) (pid : ℕ) (e : Option WfpEngine)
    → Filters (some o) e
    → Filters (some (record o { last_pid = pid })) e
rebound-Filters o pid none f = tt
rebound-Filters o pid (some e) f = f

owner_matches_sound :
    (generation : Text) (session_id : ℕ) (o : ActiveOwner)
    → owner_matches generation session_id o ≡ true
    → (o.session_id ≡ session_id) × (o.generation ≡ generation)
unfolding owner_matches
owner_matches_sound generation session_id o h = ground (arith, text_eq_iff o.generation generation)

bind_owner-Binds :
    (generation : Text) (session_id pid : ℕ) (o o' : Option ActiveOwner)
    → bind_owner generation session_id pid o ≡ ok o'
    → Binds o o' generation session_id
unfolding bind_owner
bind_owner-Binds generation session_id pid none o' e =
    let bound : some (new_owner generation session_id pid) ≡ o' = ground arith in
    subst (λ z. Binds none z generation session_id) bound
      (record {
        owner = new_owner generation session_id pid;
        is_owner = refl;
        session = refl;
        same_generation = refl;
        keeps_runs = keeps_Runs-none (new_owner generation session_id pid);
        keeps_filters = keeps_Filters-none (new_owner generation session_id pid);
        keeps_device = λ d a h k. absurd (ground arith);
      })
bind_owner-Binds generation session_id pid (some o) o' e =
    elim (Bool-cases (owner_matches generation session_id o)) [
      | inl mine ↦
          let (session, same) = owner_matches_sound generation session_id o mine in
          let bound : some (record o { last_pid = pid }) ≡ o' = ground arith in
          subst (λ z. Binds (some o) z generation session_id) bound
            (record {
              owner = record o { last_pid = pid };
              is_owner = refl;
              session = session;
              same_generation = same;
              keeps_runs = rebound-Runs o pid;
              keeps_filters = rebound-Filters o pid;
              keeps_device = λ d a h k. ground arith;
            })
      | inr other ↦ absurd (ground arith)
    ]

pub bind-Binds :
    (i : Installation) (session_id pid : ℕ) (b b' : BrokerState)
    → bind_or_verify i session_id pid b ≡ ok b'
    → Binds b.owner b'.owner i.generation session_id
unfolding bind_or_verify
bind-Binds i session_id pid b b' e = shown (bind_owner i.generation session_id pid b.owner) refl e
  where
    shown :
        (r : Result Foreign (Option ActiveOwner))
        → bind_owner i.generation session_id pid b.owner ≡ r
        → as_state r ≡ ok b'
        → Binds b.owner b'.owner i.generation session_id
    shown (ok o') bound e =
        bind_owner-Binds i.generation session_id pid b.owner b'.owner (ground arith)
    shown (err f) bound e = absurd (ground arith)

-- To prove something of a helper whose owner is known.
pub at_owner :
    (P : Helper → Type 0) (h : Helper) (o : ActiveOwner)
    → h.broker.owner ≡ some o
    → P (helper (some o) h.firewall h.tunnel)
    → P h
at_owner P h o own p = subst (λ x. P (helper x h.firewall h.tunnel)) (sym own) p
