-- ===== src/Orchestration/Job/History.antt =====
-- Histories of the job repository of internal/orchestration/job: any calls, in any order, with any
-- arguments, the failing ones included.
use control_center_stable.Prelude.{
  ℕ, String, ◌≡◌, Option, none, some, List, [], ◌∷◌, true, eq_iff, Context, ◌==◌, inl, inr,
  Bool-cases,
}
use control_center_stable.Prelude.Map.{lookup, map_laws}
use control_center_stable.Prelude.Time.{Time, Duration}
use control_center_stable.Prelude.Library.{Library}
use control_center_stable.Orchestration.Events.{Output}
use control_center_stable.Orchestration.Job.Model.{Job, CreateRequest, RetryPolicy, is_terminal}
use control_center_stable.Orchestration.Job.Memory.{
  Repository, new_repository, create, claim, renew_lease, succeed, fail, request_cancel,
  request_cancel_if_version,
}
use control_center_stable.Orchestration.Job.Lifecycle.{Evolves}
use control_center_stable.Orchestration.Job.Consistent.{
  IsConsistent, Move, evolve, admit, Moves, here, next, Moves-trans, Moves-IsConsistent,
  Moves-terminal, new_repository-IsConsistent,
}
use control_center_stable.Orchestration.Job.Refines.{
  create-Moves, claim-Moves, renew_lease-Moves, succeed-Moves, fail-Moves, request_cancel-Moves,
  request_cancel_if_version-Moves,
}

-- A call of the repository's interface that may change it.
pub data Call : Type 0 where
  creates : Context → CreateRequest → Call
  claims : Context → String → Time → Duration → Call
  renews : Context → String → String → Time → Duration → Call
  succeeds : Context → String → String → Output → Time → Call
  fails : Context → String → String → String → Output → RetryPolicy → Time → Call
  cancels : Context → String → Time → Call
  cancels_version : Context → String → ℕ → Time → Call

unfoldable pub step : Library → Call → Repository → Repository
step lib (creates ctx request) r = (create lib ctx request r).1
step lib (claims ctx worker_id now ttl) r = (claim lib ctx worker_id now ttl r).1
step lib (renews ctx id token now ttl) r = (renew_lease ctx id token now ttl r).1
step lib (succeeds ctx id token output now) r = (succeed ctx id token output now r).1
step lib (fails ctx id token text output policy now) r =
    (fail ctx id token text output policy now r).1
step lib (cancels ctx id now) r = (request_cancel ctx id now r).1
step lib (cancels_version ctx id version now) r = (request_cancel_if_version ctx id version now r).1

unfoldable pub run : Library → List Call → Repository → Repository
unfolding step
run lib [] r = r
run lib (call ∷ calls) r = run lib calls (step lib call r)

-- A call, failing or not, moves a consistent repository along the lifecycle.
pub step-Moves :
    (lib : Library) (call : Call) (r : Repository)
    → IsConsistent lib r
    → Moves lib r (step lib call r)
unfolding step
step-Moves lib (creates ctx request) r c = create-Moves lib r c ctx request
step-Moves lib (claims ctx worker_id now ttl) r c = claim-Moves lib r c ctx worker_id now ttl
step-Moves lib (renews ctx id token now ttl) r c = renew_lease-Moves lib r c ctx id token now ttl
step-Moves lib (succeeds ctx id token output now) r c =
    succeed-Moves lib r c ctx id token output now
step-Moves lib (fails ctx id token text output policy now) r c =
    fail-Moves lib r c ctx id token text output policy now
step-Moves lib (cancels ctx id now) r c = request_cancel-Moves lib r c ctx id now
step-Moves lib (cancels_version ctx id version now) r c =
    request_cancel_if_version-Moves lib r c ctx id version now

run-Moves :
    (lib : Library) (calls : List Call) (r : Repository)
    → IsConsistent lib r
    → Moves lib r (run lib calls r)
unfolding run
run-Moves lib [] r c = here
run-Moves lib (call ∷ calls) r c =
    let ms = step-Moves lib call r c in
    Moves-trans ms (run-Moves lib calls (step lib call r) (Moves-IsConsistent c ms))

-- After any calls on a new repository, failing ones included, every job is well-formed (leased
-- exactly while it runs or is asked to stop, with at most its maximal number of attempts, and with
-- a number of attempts that fits its status), stands under its own ID and is found by its
-- idempotency key; and every idempotency record names a job of that key and holds the fingerprint
-- of the request that created it.
pub run-IsConsistent :
    (lib : Library) (calls : List Call) → IsConsistent lib (run lib calls new_repository)
run-IsConsistent lib calls =
    Moves-IsConsistent (new_repository-IsConsistent lib)
      (run-Moves lib calls new_repository (new_repository-IsConsistent lib))

-- A job that is succeeded, failed or cancelled in a consistent repository is the same job, field
-- by field, after any further calls.
pub run-terminal :
    (lib : Library) (calls : List Call) (r : Repository) (id : String) (j : Job)
    → IsConsistent lib r
    → lookup id r.jobs ≡ some j
    → is_terminal j.status ≡ true
    → lookup id (run lib calls r).jobs ≡ some j
run-terminal lib calls r id j c at done = Moves-terminal id j (run-Moves lib calls r c) at done

-- A chain of edges of the lifecycle, at any times.
pub data Leads (j : Job) : Job → Type 0 where
  stay : Leads j j
  onward : {k l : Job} (now : Time) → Leads j k → Evolves now k l → Leads j l

abbrev pub Follows : Job → Option Job → Type 0
Follows j none = ⊥
Follows j (some k) = Leads j k

Move-Follows :
    {lib : Library} {r s : Repository} (id : String) (j : Job)
    → Move lib r s
    → Follows j (lookup id r.jobs)
    → Follows j (lookup id s.jobs)
Move-Follows {r = r} id j (evolve now i k l at e w p) f = rw p (
    simp map_laws (elim (Bool-cases (i == id)) [
      | inl same ↦
          let q : i ≡ id = (eq_iff i id).0 same in
          let at' : lookup id r.jobs ≡ some k = rw q at at in rw same (onward now (rw at' at f) e)
      | inr differs ↦ rw differs f
    ]))
Move-Follows {r = r} id j (admit request fresh unused positive p) f = rw p (
    simp map_laws (elim (Bool-cases (request.id == id)) [
      | inl same ↦
          let q : request.id ≡ id = (eq_iff request.id id).0 same in
          let fresh' : lookup id r.jobs ≡ none = rw q at fresh in absurd (rw fresh' at f)
      | inr differs ↦ rw differs f
    ]))

Moves-Follows :
    {lib : Library} {r s : Repository} (id : String) (j : Job)
    → Moves lib r s
    → lookup id r.jobs ≡ some j
    → Follows j (lookup id s.jobs)
Moves-Follows id j here at = rw at stay
Moves-Follows id j (next ms m) at = Move-Follows id j m (Moves-Follows id j ms at)

-- A job of a consistent repository is there after any further calls, and what became of it is a
-- chain of edges of the lifecycle: its identity, input and limit are kept, and each edge gives it
-- the next version.
pub run-Follows :
    (lib : Library) (calls : List Call) (r : Repository) (id : String) (j : Job)
    → IsConsistent lib r
    → lookup id r.jobs ≡ some j
    → Follows j (lookup id (run lib calls r).jobs)
run-Follows lib calls r id j c at = Moves-Follows id j (run-Moves lib calls r c) at
