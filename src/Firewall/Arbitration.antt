-- ===== src/Firewall/Arbitration.antt =====
-- What Windows documents of the filters in one sublayer, as an interface: the matching filter of the
-- highest weight decides. src-tauri/src/bin/kwik_helper/firewall.rs relies on it for its weights.
use kwik_proxy_secure.Prelude.{◌≤◌, ◌<◌, Bool, true, false, ◌&&◌, List, ◌≡◌, Member, all}
use kwik_proxy_secure.Wfp.{Layer, connect_v4, connect_v6, Filter, Action, permit, block, Condition}

abbrev pub layer_eq : Layer → Layer → Bool
layer_eq connect_v4 connect_v4 = true
layer_eq connect_v6 connect_v6 = true
layer_eq _ _ = false

-- A filter matches a packet at its layer that meets all its conditions.
abbrev pub matches :
    {Packet : Type 0} → (Packet → Layer) → (Condition → Packet → Bool) → Filter → Packet → Bool
matches layer_of holds f p = layer_eq (layer_of p) f.layer && all (λ c. holds c p) f.conditions

pub record Arbitration : Type 1 where
  pub Packet : Type 0
  pub layer_of : Packet → Layer
  pub holds : Condition → Packet → Bool
  pub classify : List Filter → Packet → Action
  -- A blocked packet gets through only by a filter of no less weight.
  pub overruled :
      (fs : List Filter) (f : Filter) (p : Packet)
      → Member f fs
      → matches layer_of holds f p ≡ true
      → f.action ≡ block
      → classify fs p ≡ permit
      → (g : Filter) × Member g fs
        × (matches layer_of holds g p ≡ true)
        × (g.action ≡ permit)
        × (f.weight ≤ g.weight)
  -- A permit that outweighs every block that matches decides.
  pub granted :
      (fs : List Filter) (f : Filter) (p : Packet)
      → Member f fs
      → matches layer_of holds f p ≡ true
      → f.action ≡ permit
      → ((g : Filter)
          → Member g fs
          → matches layer_of holds g p ≡ true
          → g.action ≡ block
          → g.weight < f.weight)
      → classify fs p ≡ permit
