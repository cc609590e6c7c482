-- ===== src/Ports.antt =====
-- src-tauri/src/vpn/ports.rs: the choice of ports for the proxy listeners. Whether a port can be bound,
-- and the clock, are parameters.
use kwik_proxy_secure.Prelude.{
  ℕ, zero, suc, ◌+◌, ◌-◌, ◌%◌, ◌^◌, ◌≤◌, ◌<◌, Bool, true, if◌then◌else◌, ◌≡◌, arith, inl, inr,
  Bool-cases, Option, none, some,
}

abbrev pub max_port : ℕ
max_port = 65535

-- The loop over `start..=65535`, by the number of ports that are left to try.
unfoldable pub first_free : (ℕ → Bool) → ℕ → ℕ → Option ℕ
first_free can_bind p zero = none
first_free can_bind p (suc left) =
    let later = first_free can_bind (p + 1) left in if can_bind p then some p else later

abbrev pub unwrap_or : ℕ → Option ℕ → ℕ
unwrap_or start none = start
unwrap_or start (some p) = p

unfoldable pub find_free_port : (ℕ → Bool) → ℕ → ℕ
unfolding first_free
find_free_port can_bind start = unwrap_or start (first_free can_bind start (max_port + 1 - start))

-- `30_000 + (nanos % 30_000) as u16`; `nanos` is 0 where the clock is before 1970.
unfoldable pub random_high_port : Option ℕ → ℕ
random_high_port nanos = 30000 + unwrap_or 0 nanos % 30000 % 2 ^ 16

module _ (can_bind : ℕ → Bool) where
  first_free_lem :
      (left p q : ℕ)
      → p ≤ q
      → q < p + left
      → can_bind q ≡ true
      → (r : ℕ) × (first_free can_bind p left ≡ some r) × (can_bind r ≡ true) × (p ≤ r) × (r ≤ q)
  unfolding first_free
  first_free_lem zero p q low high free = absurd (omega arith)
  first_free_lem (suc left) p q low high free = elim (Bool-cases (can_bind p)) [
    | inl here ↦ (p, ground arith, here, omega arith, low)
    | inr taken ↦
        let past : p < q = ground arith in
        let (r, found, binds, above, below) =
          first_free_lem left (p + 1) q (omega arith) (omega arith) free in
        (r, ground arith, binds, omega arith, below)
  ]

  -- If any port from `start` on can be bound, the port that is returned can be, it is not before
  -- `start`, and it is the first of them.
  pub find_free_port-first :
      (start q : ℕ)
      → start ≤ q
      → q ≤ max_port
      → can_bind q ≡ true
      → (can_bind (find_free_port can_bind start) ≡ true)
        × (start ≤ find_free_port can_bind start)
        × (find_free_port can_bind start ≤ q)
  unfolding find_free_port
  find_free_port-first start q low high free =
      let (r, found, binds, above, below) =
        first_free_lem (max_port + 1 - start) start q low (omega arith) free in
      (ground arith, ground arith, ground arith)

-- The random port is in [30000, 60000), and neither the cast to 16 bits nor the sum loses anything.
pub random_high_port-in_range :
    (nanos : Option ℕ)
    → (30000 ≤ random_high_port nanos)
      × (random_high_port nanos < 60000)
      × (random_high_port nanos ≡ 30000 + unwrap_or 0 nanos % 30000)
unfolding random_high_port
random_high_port-in_range nanos = (omega arith, omega arith, omega arith)
