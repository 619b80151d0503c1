-- ===== src/Orchestration/Job/Refines.antt =====
-- Every operation of internal/orchestration/job/memory.go and cancel_version.go is a sequence of
-- moves of a consistent repository, whatever it returns.
use control_center_stable.Prelude.{
  ◌⊎◌, ◌||◌, not, nat_eq, ℕ, ◌<◌, String, ◌≡◌, refl, sym, Option, none, some, List, [], ◌∷◌, inl,
  inr, true, arith, ◌==◌, Bool-cases, Option-cases, Result-cases, Context, ok, err, ◌>>=◌,
}
use control_center_stable.Prelude.Map.{lookup}
use control_center_stable.Prelude.Time.{Time, Duration, is_positive, is_zero}
use control_center_stable.Prelude.Library.{Library}
use control_center_stable.Orchestration.Events.{Output}
use control_center_stable.Orchestration.Job.Model.{
  Error, message, Job, CreateRequest, RetryPolicy, is_terminal, or_zero,
}
use control_center_stable.Orchestration.Job.Steps.{
  fingerprint, visit, Visit, Visit-cases, skip, write, claim_it, check_lease, renew, complete,
  record_failure, request_stop,
}
use control_center_stable.Orchestration.Job.Memory.{
  Repository, save, create, store_new, create_locked, claim_order, claim, claim_loop, leased,
  renew_lease, succeed, fail, request_cancel, request_cancel_if_version, lacks_identity,
  lacks_input, lacks_schedule, check_create, Op, commit, stop_unless_terminal,
}
use control_center_stable.Orchestration.Job.Lifecycle.{
  IsWellFormed, Evolves, holds_lease, visit_write-IsWellFormed, visit_claim-IsWellFormed,
  visit_write-Evolves, visit_claim-Evolves, check_lease_same, check_lease-holds_lease,
  renew-IsWellFormed, renew-Evolves, complete-IsWellFormed, complete-Evolves,
  record_failure-IsWellFormed, record_failure-Evolves, request_stop-IsWellFormed,
  request_stop-Evolves,
}
use control_center_stable.Orchestration.Job.Consistent.{
  IsConsistent, Move, evolve, admit, Moves, here, next, Moves-trans, Move-IsConsistent,
}

-- A call that checks the lease of a job and then stores what it makes of the job.
module _ (lib : Library) (r : Repository) (c : IsConsistent lib r) (id token : String) (now : Time)
    (change : Job → Job)
    (good : (j : Job) → IsWellFormed j → holds_lease j.status ≡ true → IsWellFormed (change j))
    (follows : (j : Job)
      → IsWellFormed j
      → holds_lease j.status ≡ true
      → Evolves now j (change j)) where
  leased_change : Op Job
  leased_change = leased id token now >>= λ found. commit id (change found)

  change_held :
      (j : Job)
      → lookup id r.jobs ≡ some j
      → holds_lease j.status ≡ true
      → Moves lib r (save id (change j) r)
  change_held j at held =
      let w = c.well_formed id j at in
      next here (evolve now id j (change j) at (follows j w held) (good j w held) refl)

  leased_change-Moves : Moves lib r (leased_change r).1
  unfolding leased_change leased
  leased_change-Moves = elim (Option-cases (lookup id r.jobs)) [
    | inl gone ↦ rw gone here
    | inr (j, at) ↦ rw at (elim (Result-cases (check_lease j token now)) [
      | inl (f, held) ↦
          rw (held, check_lease_same j f token now held)
            (change_held j at (check_lease-holds_lease j f token now held))
      | inr (e, refused) ↦ rw refused here
    ])
  ]

module _ (lib : Library) (r : Repository) (c : IsConsistent lib r) where
  pub renew_lease-Moves :
      (ctx : Context) (id token : String) (now : Time) (ttl : Duration)
      → Moves lib r (renew_lease ctx id token now ttl r).1
  unfolding renew_lease leased_change
  renew_lease-Moves (some e) id token now ttl = here
  renew_lease-Moves none id token now ttl = elim (Bool-cases (is_positive ttl)) [
    | inl good ↦ rw good (
        leased_change-Moves lib r c id token now (λ j. renew j now ttl)
          (λ j w held. renew-IsWellFormed j now w held ttl)
          (λ j w held. renew-Evolves j now w held ttl))
    | inr bad ↦ rw bad here
  ]

  pub succeed-Moves :
      (ctx : Context) (id token : String) (output : Output) (now : Time)
      → Moves lib r (succeed ctx id token output now r).1
  unfolding succeed leased_change
  succeed-Moves (some e) id token output now = here
  succeed-Moves none id token output now =
      leased_change-Moves lib r c id token now (λ j. complete j output now)
        (λ j w held. complete-IsWellFormed j now w held output)
        (λ j w held. complete-Evolves j now w held output)

  pub fail-Moves :
      (ctx : Context) (id token text : String) (output : Output) (policy : RetryPolicy) (now : Time)
      → Moves lib r (fail ctx id token text output policy now r).1
  unfolding fail leased_change
  fail-Moves (some e) id token text output policy now = here
  fail-Moves none id token text output policy now = elim (Bool-cases (text == "")) [
    | inl bad ↦ rw bad here
    | inr good ↦ rw good (
        leased_change-Moves lib r c id token now (λ j. record_failure j text output policy now)
          (λ j w held. record_failure-IsWellFormed j now w held text output policy)
          (λ j w held. record_failure-Evolves j now w held text output policy))
  ]

  stop_unless_terminal-Moves :
      (id : String) (j : Job) (now : Time)
      → lookup id r.jobs ≡ some j
      → Moves lib r (stop_unless_terminal id j now r).1
  stop_unless_terminal-Moves id j now at = elim (Bool-cases (is_terminal j.status)) [
    | inl done ↦ rw done here
    | inr live ↦
        let w = c.well_formed id j at in
        rw live (
          next here (
            evolve now id j (request_stop j now) at (request_stop-Evolves j now w live)
              (request_stop-IsWellFormed j now w live) refl))
  ]

  pub request_cancel-Moves :
      (ctx : Context) (id : String) (now : Time) → Moves lib r (request_cancel ctx id now r).1
  unfolding request_cancel
  request_cancel-Moves (some e) id now = here
  request_cancel-Moves none id now = elim (Option-cases (lookup id r.jobs)) [
    | inl gone ↦ rw gone here
    | inr (j, at) ↦ rw at (stop_unless_terminal-Moves id j now at)
  ]

  pub request_cancel_if_version-Moves :
      (ctx : Context) (id : String) (version : ℕ) (now : Time)
      → Moves lib r (request_cancel_if_version ctx id version now r).1
  unfolding request_cancel_if_version
  request_cancel_if_version-Moves (some e) id version now = here
  request_cancel_if_version-Moves none id version now = elim (Bool-cases (nat_eq version 0)) [
    | inl bad ↦ rw bad here
    | inr good ↦ rw good (elim (Option-cases (lookup id r.jobs)) [
      | inl gone ↦ rw gone here
      | inr (j, at) ↦ rw at (elim (Bool-cases (nat_eq j.version version)) [
        | inl match ↦ rw match (stop_unless_terminal-Moves id j now at)
        | inr stale ↦ rw stale here
      ])
    ])
  ]

-- What a visit writes is an evolution of a job of the repository.
module _ (lib : Library) (worker_id : String) (now : Time) (ttl : Duration) where
  -- A missing job is not visited.
  pub visit-or_zero :
      (id : String) (o : Option Job) (v : Visit)
      → visit lib worker_id now ttl (or_zero o) ≡ v
      → (v ≡ skip) ⊎ ((j : Job) × (o ≡ some j) × (visit lib worker_id now ttl j ≡ v))
  unfolding visit
  visit-or_zero id none v h = inl (sym h)
  visit-or_zero id (some j) v h = inr (j, refl, h)

  written :
      (r : Repository)
      → IsConsistent lib r
      → (id : String) (k : Job)
      → (visit lib worker_id now ttl (or_zero (lookup id r.jobs)) ≡ write k)
        ⊎ (visit lib worker_id now ttl (or_zero (lookup id r.jobs)) ≡ claim_it k)
      → Move lib r (save id k r)
  written r c id k (inl h) = elim (visit-or_zero id (lookup id r.jobs) (write k) h) [
    | inl e ↦ cc
    | inr (j, at, v) ↦
        evolve now id j k at
          (visit_write-Evolves lib worker_id now ttl j k (c.well_formed id j at) v)
          (visit_write-IsWellFormed lib worker_id now ttl j k (c.well_formed id j at) v) refl
  ]
  written r c id k (inr h) = elim (visit-or_zero id (lookup id r.jobs) (claim_it k) h) [
    | inl e ↦ cc
    | inr (j, at, v) ↦
        evolve now id j k at
          (visit_claim-Evolves lib worker_id now ttl j k (c.well_formed id j at) v)
          (visit_claim-IsWellFormed lib worker_id now ttl j k (c.well_formed id j at) v) refl
  ]

  pub claim_loop-Moves :
      (ids : List String) (r : Repository)
      → IsConsistent lib r
      → Moves lib r (claim_loop lib worker_id now ttl ids r).1
  unfolding claim_loop
  claim_loop-Moves [] r c = here
  claim_loop-Moves (id ∷ ids) r c =
      elim (Visit-cases (visit lib worker_id now ttl (or_zero (lookup id r.jobs)))) [
        | inl e ↦ rw (e, claim_loop) (claim_loop-Moves ids r c)
        | inr (inl (k, e)) ↦
            let m = written r c id k (inl e) in
            rw (e, claim_loop)
              (Moves-trans (next here m)
                (claim_loop-Moves ids (save id k r) (Move-IsConsistent c m)))
        | inr (inr (k, e)) ↦ rw (e, claim_loop) (next here (written r c id k (inr e)))
      ]

module _ (lib : Library) (r : Repository) (c : IsConsistent lib r) where
  pub claim-Moves :
      (ctx : Context) (worker_id : String) (now : Time) (ttl : Duration)
      → Moves lib r (claim lib ctx worker_id now ttl r).1
  unfolding claim
  claim-Moves (some e) worker_id now ttl = here
  claim-Moves none worker_id now ttl =
      elim (Bool-cases (worker_id == "" || is_zero now || not (is_positive ttl))) [
        | inl bad ↦ rw bad here
        | inr good ↦ rw good (claim_loop-Moves lib worker_id now ttl (claim_order r.jobs) r c)
      ]

  create_locked-Moves :
      (request : CreateRequest)
      → 0 < request.max_attempts
      → Moves lib r (create_locked lib request r).1
  unfolding create_locked
  create_locked-Moves request positive =
      elim (Option-cases (lookup request.idempotency_key r.idempotency)) [
        | inl unused ↦
            rw (unused, create_locked)
              (elim (Option-cases (lookup request.id r.jobs)) [
                | inl fresh ↦
                    rw (fresh, store_new) (next here (admit request fresh unused positive refl))
                | inr (j, at) ↦ rw (at, store_new) here
              ])
        | inr (known, e) ↦
            rw (e, create_locked)
              (elim (Bool-cases (known.fingerprint == fingerprint lib request)) [
                | inl match ↦ rw match here
                | inr differs ↦ rw differs here
              ])
      ]

  -- The checks change nothing, and let through only requests with an attempt.
  check_create_cases :
      (request : CreateRequest)
      → ((check_create lib request r ≡ (ok tt, r)) × (0 < request.max_attempts))
        ⊎ ((e : Error) × (check_create lib request r ≡ (err e, r)))
  unfolding check_create
  check_create_cases request = elim (Bool-cases (lacks_identity request)) [
    | inl bad ↦ inr (message "job id, change id, action, and idempotency key are required", rw bad)
    | inr named ↦ rw named (elim (Bool-cases (lacks_input lib request)) [
      | inl bad ↦ inr (message "job input must be valid JSON", rw bad)
      | inr filled ↦ rw filled (elim (Bool-cases (lacks_schedule request)) [
        | inl bad ↦ inr (message "max attempts and creation time are required", rw bad)
        | inr planned ↦ rw planned (inl (refl, ground arith))
      ])
    ])
  ]

  pub create-Moves :
      (ctx : Context) (request : CreateRequest) → Moves lib r (create lib ctx request r).1
  unfolding create
  create-Moves (some e) request = here
  create-Moves none request = elim (check_create_cases request) [
    | inl (passed, positive) ↦ rw passed (create_locked-Moves request positive)
    | inr (e, refused) ↦ rw refused here
  ]
