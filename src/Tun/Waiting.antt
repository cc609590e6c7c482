-- ===== src/Tun/Waiting.antt =====
-- src-tauri/src/bin/kwik_helper/tun.rs: the waiting loop of the two cleanups ends, and what its
-- results mean.
use kwik_proxy_secure.Net.{Std}
use kwik_proxy_secure.Prelude.{
  text_eq_iff, [], ◌∷◌, Option-cases, text_eq, All, some, any, List, ℕ, zero, suc, ◌+◌, ◌*◌, ◌≤◌,
  ◌<◌, Text, Bool, true, false, not, Result, ok, err, ◌>>=◌, if◌then◌else◌, leb, ◌≡◌, ◌≢◌, refl,
  arith, inl, inr, Result-cases,
}
use kwik_proxy_secure.Tun.{
  wide_z_to_string, IfRow, Adapters, Error, stalled, still_present, removal_wait, await_absence,
  cleanup_owned_device, owned_alias_exists, owned_prefix_exists, cleanup_orphan_resources,
}

-- Between two looks the loop sleeps 100 ms.
abbrev pub Sleeps : Adapters → Type 0
Sleeps os = (k : ℕ) → os.elapsed k + 100 ≤ os.elapsed (k + 1)

-- How one round ends, or that it goes on.
module _ (std : Std) (os : Adapters) (look : ℕ → Result Error Bool) where
  await_zero : (k : ℕ) → await_absence std os 0 k look ≡ err stalled
  unfolding await_absence
  await_zero k = refl

  await_suc :
      (fuel k : ℕ)
      → await_absence std os (suc fuel) k look ≡ (
          look k >>= λ present.
          if not present
          then ok tt
          else if leb removal_wait (os.elapsed k)
          then err still_present
          else await_absence std os fuel (k + 1) look)
  unfolding await_absence
  await_suc fuel k = refl

  pub await-ends :
      (left k : ℕ)
      → Sleeps os
      → ((j : ℕ) → look j ≢ err stalled)
      → removal_wait ≤ os.elapsed k + left * 100
      → await_absence std os (suc left) k look ≢ err stalled
  await-ends zero k sleeps looks enough = let now = looks k in ground (arith, await_suc zero k)
  await-ends (suc left) k sleeps looks enough =
      let pause = sleeps k in
      let later = await-ends left (k + 1) sleeps looks (omega arith) in
      let now = looks k in ground (arith, await_suc (suc left) k)

  -- Success means that some look found nothing.
  pub await-absent :
      (fuel k : ℕ)
      → await_absence std os fuel k look ≡ ok tt
      → (j : ℕ) × (k ≤ j) × (look j ≡ ok false)
  await-absent zero k e = absurd (ground (arith, await_zero k))
  await-absent (suc fuel) k e =
      let deeper = await-absent fuel (k + 1) in
      elim (Result-cases (look k)) [
        | inl (found, seen) ↦ looked found seen deeper
        | inr (x, broken) ↦ absurd (ground (arith, await_suc fuel k))
      ]
    where
      looked :
          (found : Bool)
          → look k ≡ ok found
          → (await_absence std os fuel (k + 1) look ≡ ok tt
              → (j : ℕ) × (k + 1 ≤ j) × (look j ≡ ok false))
          → (j : ℕ) × (k ≤ j) × (look j ≡ ok false)
      looked false seen deeper = (k, omega arith, seen)
      looked true seen deeper =
          let (j, after, absent) = deeper (ground (arith, await_suc fuel k)) in
          (j, omega arith, absent)

module _ (std : Std) (os : Adapters) where
  alias_look : (name : Text) (k : ℕ) → owned_alias_exists std os name k ≢ err stalled
  unfolding owned_alias_exists
  alias_look name k = ground arith

  prefix_look : (k : ℕ) → owned_prefix_exists std os k ≢ err stalled
  unfolding owned_prefix_exists
  prefix_look k = ground arith

  -- With 21 rounds or more, which the 100 ms of sleep in each make enough for the two seconds of the
  -- deadline, the cleanup of a device never runs out of fuel, whatever Windows shows.
  pub cleanup_owned_device-ends :
      (fuel : ℕ) (name : Text)
      → Sleeps os
      → 20 < fuel
      → cleanup_owned_device std os fuel name ≢ err stalled
  unfolding cleanup_owned_device
  cleanup_owned_device-ends zero name sleeps enough = absurd (omega arith)
  cleanup_owned_device-ends (suc left) name sleeps enough =
      let waits =
        await-ends std os (owned_alias_exists std os name) left 0 sleeps (alias_look name)
          (omega arith) in
      ground arith

  -- With 21 rounds or more and the same pauses, the startup cleanup never runs out of fuel.
  pub cleanup_orphan_resources-ends :
      (fuel : ℕ) → Sleeps os → 20 < fuel → cleanup_orphan_resources std os fuel ≢ err stalled
  unfolding cleanup_orphan_resources
  cleanup_orphan_resources-ends zero sleeps enough = absurd (omega arith)
  cleanup_orphan_resources-ends (suc left) sleeps enough =
      await-ends std os (owned_prefix_exists std os) left 0 sleeps prefix_look (omega arith)

  no_alias :
      (name : Text) (rows : List IfRow)
      → any (λ row. text_eq (wide_z_to_string std row.alias) name) rows ≡ false
      → All (λ row. wide_z_to_string std row.alias ≢ name) rows
  no_alias name [] e = tt
  no_alias name (row ∷ rows) e = (
    λ same. let equal = (text_eq_iff (wide_z_to_string std row.alias) name).1 same in ground arith,
    no_alias name rows (ground arith),
  )

  absent_rows :
      (name : Text) (k : ℕ)
      → owned_alias_exists std os name k ≡ ok false
      → (rows : List IfRow) × (os.table k ≡ some rows)
        × All (λ row. wide_z_to_string std row.alias ≢ name) rows
  unfolding owned_alias_exists
  absent_rows name k e = elim (Option-cases (os.table k)) [
    | inl failed ↦ absurd (ground arith)
    | inr (rows, read) ↦ (rows, read, no_alias name rows (ground arith))
  ]

  -- A cleanup that reports success has read an adapter table in which no row, up or not, has the name
  -- of the device as its alias.
  pub cleanup_owned_device-absent :
      (fuel : ℕ) (name : Text)
      → cleanup_owned_device std os fuel name ≡ ok tt
      → (k : ℕ) × ((rows : List IfRow) × (os.table k ≡ some rows)
          × All (λ row. wide_z_to_string std row.alias ≢ name) rows)
  unfolding cleanup_owned_device
  cleanup_owned_device-absent fuel name e =
      let (k, _, absent) =
        await-absent std os (owned_alias_exists std os name) fuel 0 (ground arith) in
      (k, absent_rows name k absent)
