-- ===== src/Pipe/Serving.antt =====
-- src-tauri/src/bin/kwik_helper/pipe.rs: the accept loop keeps a listener and never has more instances
-- than the system was told, and lasts as long as nothing but transient errors happens.
use mathlib.Core.Path.{ap, subst}
use kwik_proxy_secure.Prelude.{
  if-holds, ℕ, suc, ◌+◌, ◌-◌, ◌≤◌, true, false, not, List, [], ◌∷◌, ◌≡◌, ◌≢◌, ◌∙◌, refl, arith, inl,
  inr, Bool-cases, if◌then◌else◌, leb, All,
}
use kwik_proxy_secure.Pipe.{
  Server, Round, Accepted, tick, connected, transient_error, fatal_error, Attempt, created,
  short_of_capacity, cannot_create, Replacement, replaced, shutting_down, cannot_replace, waiting,
  Progress, going_on, left_loop, stuck, failed_loop, no_listener, accept, serve_round, serve,
  after_joins, replace_stale, replace_connected, go_on, create_replacement_pipe, max_client_workers,
}

-- The pipe instances that are open.
abbrev pub instances : Server → ℕ
instances s = s.workers + (if s.has_listener then 1 else 0)

-- Between two rounds there is a listener, and there are at most three workers.
abbrev pub IsServing : Server → Type 0
IsServing s = (s.has_listener ≡ true) × (s.workers ≤ 3)

-- The server goes on so, or ends with no more instances than before; the listener was never missed.
unfoldable pub IsSound : Progress → Type 0
IsSound (going_on s) = IsServing s
IsSound (left_loop s) = instances s ≤ 4
IsSound (stuck s) = instances s ≤ 3
IsSound (failed_loop e s) = (e ≢ no_listener) × (instances s ≤ 3)

replaced_lem : (s : Server) (r : Replacement) → s.workers ≤ 2 → IsSound (replace_connected s r)
unfolding IsSound
replaced_lem s replaced h = (refl, ground (arith, h))
replaced_lem s shutting_down h = ground (arith, h)
replaced_lem s cannot_replace h = ((λ e. cc e), ground (arith, h))
replaced_lem s waiting h = ground (arith, h)

stale_lem : (s : Server) (r : Replacement) → s.workers ≤ 2 → IsSound (replace_stale s r)
unfolding IsSound
stale_lem s replaced h = (refl, ground (arith, h))
stale_lem s shutting_down h = ground (arith, h)
stale_lem s cannot_replace h = ((λ e. cc e), ground (arith, h))
stale_lem s waiting h = ground (arith, h)

accept_lem :
    (s : Server) (a : Accepted) → s.has_listener ≡ true → s.workers ≤ 2 → IsSound (accept s a)
unfolding IsSound
accept_lem s tick there h = (there, ground (arith, h))
accept_lem s (connected attempts) there h = replaced_lem s (create_replacement_pipe attempts) h
accept_lem s (transient_error attempts) there h = stale_lem s (create_replacement_pipe attempts) h
accept_lem s fatal_error there h = ((λ e. cc e), ground (arith, h))

round_lem : (r : Round) (s : Server) → IsServing s → IsSound (serve_round r s)
unfolding serve_round IsSound
round_lem r s h =
    if-holds IsSound r.shutdown _ _ (λ e. ground (arith, h.0, h.1))
      (λ e.
        if-holds IsSound (leb max_client_workers (s.workers - r.joined)) _ _
          (λ full. (h.0, ground (arith, h.1)))
          (λ free.
            if-holds IsSound (not s.has_listener) _ _ (λ missing. ground (arith, missing, h.0))
              (λ there. accept_lem (after_joins r.joined s) r.accepted h.0 (ground (arith, free)))))

go_on_lem :
    (next : Server → Progress) (p : Progress)
    → IsSound p
    → ((s : Server) → IsServing s → IsSound (next s))
    → IsSound (go_on next p)
unfolding IsSound
go_on_lem next (going_on s) h f = f s h
go_on_lem next (left_loop s) h f = h
go_on_lem next (stuck s) h f = h
go_on_lem next (failed_loop e s) h f = h

-- In every history of rounds, however clients, errors and shortages come, the loop holds a listener and
-- at most three workers at each round, so that at most four pipe instances are open; it fails only by
-- an error of the system.
pub serve-IsSound : (rs : List Round) (s : Server) → IsServing s → IsSound (serve rs s)
unfolding serve IsSound
serve-IsSound [] s h = h
serve-IsSound (r ∷ rs) s h =
    go_on_lem (λ s'. serve rs s') (serve_round r s) (round_lem r s h)
      (λ s' h'. serve-IsSound rs s' h')

-- After shortages, none of them during a shutdown, an instance is created.
unfoldable pub IsCreated : List Attempt → Type 0
IsCreated [] = ⊥
IsCreated (created ∷ later) = Unit
IsCreated (short_of_capacity false ∷ later) = IsCreated later
IsCreated (short_of_capacity true ∷ later) = ⊥
IsCreated (cannot_create ∷ later) = ⊥

unfoldable pub IsBearable : Accepted → Type 0
unfolding IsCreated
IsBearable tick = Unit
IsBearable (connected attempts) = IsCreated attempts
IsBearable (transient_error attempts) = IsCreated attempts
IsBearable fatal_error = ⊥

-- A round without a shutdown in which nothing but transient errors happens.
abbrev pub IsBearableRound : Round → Type 0
IsBearableRound r = (r.shutdown ≡ false) × IsBearable r.accepted

created_lem :
    (attempts : List Attempt) → IsCreated attempts → create_replacement_pipe attempts ≡ replaced
unfolding IsCreated create_replacement_pipe
created_lem [] h = elim h [ ]
created_lem (created ∷ later) h = refl
created_lem (short_of_capacity false ∷ later) h = created_lem later h
created_lem (short_of_capacity true ∷ later) h = elim h [ ]
created_lem (cannot_create ∷ later) h = elim h [ ]

-- The workers after a wait.
abbrev pub served : Accepted → ℕ → ℕ
served tick n = n
served (connected attempts) n = suc n
served (transient_error attempts) n = n
served fatal_error n = n

accepted_lem :
    (s : Server) (a : Accepted)
    → s.has_listener ≡ true
    → IsBearable a
    → accept s a ≡ going_on (record { has_listener = true; workers = served a s.workers })
unfolding IsBearable
accepted_lem s tick there h =
    ap (λ l. going_on (record { has_listener = l; workers = s.workers })) there
accepted_lem s (connected attempts) there h = ap (replace_connected s) (created_lem attempts h)
accepted_lem s (transient_error attempts) there h = ap (replace_stale s) (created_lem attempts h)
accepted_lem s fatal_error there h = elim h [ ]

bearable_round_lem :
    (r : Round) (s : Server)
    → IsServing s
    → IsBearableRound r
    → (s' : Server) × (serve_round r s ≡ going_on s')
unfolding serve_round
bearable_round_lem r s h calm = elim (Bool-cases (leb max_client_workers (s.workers - r.joined))) [
  | inl full ↦ (after_joins r.joined s, rw (calm.0, full) refl)
  | inr free ↦ (
    record { has_listener = true; workers = served r.accepted (s.workers - r.joined) },
    rw (calm.0, free, h.0)
        (accepted_lem (record { has_listener = true; workers = s.workers - r.joined }) r.accepted
          refl calm.1),
  )
]

-- As long as there is no shutdown and nothing fails but accepts with transient errors and attempts to
-- create an instance that run short of capacity before one succeeds, the server goes on, and holds a
-- listener after every round.
pub serve-going_on :
    (rs : List Round) (s : Server)
    → IsServing s
    → All IsBearableRound rs
    → (s' : Server) × (serve rs s ≡ going_on s') × IsServing s'
unfolding serve IsSound
serve-going_on [] s h calm = (s, refl, h)
serve-going_on (r ∷ rs) s h calm =
    let (s', went) = bearable_round_lem r s h calm.0 in
    let (s'', rest, h'') = serve-going_on rs s' (subst IsSound went (round_lem r s h)) calm.1 in
    (s'', ap (go_on (λ t. serve rs t)) went ∙ rest, h'')
