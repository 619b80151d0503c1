-- ===== src/Orchestration/Job/Consistent.antt =====
-- The invariant of the job repository (internal/orchestration/job/memory.go), and the moves that
-- keep it: a job that evolves, and a job that is admitted.
use control_center_stable.Prelude.{◌<◌, String, ◌≡◌, Option, none, some, true, arith, eq_iff}
use control_center_stable.Prelude.Map.{lookup, insert, map_laws}
use control_center_stable.Prelude.Time.{Time}
use control_center_stable.Prelude.Library.{Library}
use control_center_stable.Orchestration.Job.Model.{Job, CreateRequest, is_terminal}
use control_center_stable.Orchestration.Job.Steps.{created_job, fingerprint}
use control_center_stable.Orchestration.Job.Memory.{
  IdempotencyRecord, Repository, new_repository, save,
}
use control_center_stable.Orchestration.Job.Lifecycle.{
  IsWellFormed, Evolves, Evolves-not_terminal, created_job-IsWellFormed,
}

-- The request that a job was created by.
abbrev pub request_of : Job → CreateRequest
request_of j = record {
  id = j.id;
  change_id = j.change_id;
  action_name = j.action_name;
  input = j.input;
  idempotency_key = j.idempotency_key;
  max_attempts = j.max_attempts;
  now = j.created_at;
}

-- An idempotency record names a job of that key, and has the fingerprint of its request.
abbrev pub Describes : Library → String → IdempotencyRecord → Option Job → Type 0
Describes lib key known none = ⊥
Describes lib key known (some j) =
    (j.idempotency_key ≡ key) × (known.fingerprint ≡ fingerprint lib (request_of j))

-- The record that a job's idempotency key has.
abbrev pub Indexes : String → Option IdempotencyRecord → Type 0
Indexes id none = ⊥
Indexes id (some known) = known.job_id ≡ id

-- Every job is well-formed, stands under its ID and is found by its idempotency key; every
-- idempotency record describes the job that it names.
pub record IsConsistent (lib : Library) (r : Repository) : Type 0 where
  pub well_formed : (id : String) (j : Job) → lookup id r.jobs ≡ some j → IsWellFormed j
  pub named : (id : String) (j : Job) → lookup id r.jobs ≡ some j → j.id ≡ id
  pub indexed :
      (id : String) (j : Job)
      → lookup id r.jobs ≡ some j
      → Indexes id (lookup j.idempotency_key r.idempotency)
  pub described :
      (key : String) (known : IdempotencyRecord)
      → lookup key r.idempotency ≡ some known
      → Describes lib key known (lookup known.job_id r.jobs)

abbrev pub admit_job : Library → CreateRequest → Repository → Repository
admit_job lib request r = record {
  jobs = insert request.id (created_job request) r.jobs;
  idempotency =
      insert request.idempotency_key
        (record { job_id = request.id; fingerprint = fingerprint lib request }) r.idempotency;
}

-- One move of the repository.
pub data Move (lib : Library) (r : Repository) : Repository → Type 0 where
  evolve :
      (now : Time) (id : String) (j k : Job) {r' : Repository}
      → lookup id r.jobs ≡ some j
      → Evolves now j k
      → IsWellFormed k
      → r' ≡ save id k r
      → Move lib r r'
  admit :
      (request : CreateRequest) {r' : Repository}
      → lookup request.id r.jobs ≡ none
      → lookup request.idempotency_key r.idempotency ≡ none
      → 0 < request.max_attempts
      → r' ≡ admit_job lib request r
      → Move lib r r'

pub data Moves (lib : Library) (r : Repository) : Repository → Type 0 where
  here : Moves lib r r
  next : {s t : Repository} → Moves lib r s → Move lib s t → Moves lib r t

module _ (lib : Library) (r : Repository) (c : IsConsistent lib r) where
  save-IsConsistent :
      (now : Time) (id : String) (j k : Job)
      → lookup id r.jobs ≡ some j
      → Evolves now j k
      → IsWellFormed k
      → IsConsistent lib (save id k r)
  save-IsConsistent now id j k at e w = record {
    well_formed = λ i x. simp map_laws (ground (arith, c.well_formed i x));
    named = λ i x. simp map_laws (ground (arith, c.named i x, c.named id j, eq_iff id i));
    indexed = λ i x. simp map_laws (ground (arith, c.indexed i x, c.indexed id j, eq_iff id i));
    described = λ key known h.
        simp map_laws (ground (arith, c.described key known, eq_iff id known.job_id));
  }

  admit_job-IsConsistent :
      (request : CreateRequest)
      → lookup request.id r.jobs ≡ none
      → lookup request.idempotency_key r.idempotency ≡ none
      → 0 < request.max_attempts
      → IsConsistent lib (admit_job lib request r)
  admit_job-IsConsistent request fresh unused positive = record {
    well_formed = λ i x.
        simp map_laws
          (ground (arith, c.well_formed i x, created_job-IsWellFormed request positive));
    named = λ i x. simp map_laws (ground (arith, c.named i x, eq_iff request.id i));
    indexed = λ i x. simp map_laws (
        ground (
          arith,
          c.indexed i x,
          eq_iff request.id i,
          eq_iff request.idempotency_key x.idempotency_key,
          eq_iff request.idempotency_key request.idempotency_key,
        ));
    described = λ key known. simp map_laws (
        ground (
          arith,
          c.described key known,
          eq_iff request.id known.job_id,
          eq_iff request.idempotency_key key,
          eq_iff request.id request.id,
        ));
  }

pub Move-IsConsistent :
    {lib : Library} {r s : Repository} → IsConsistent lib r → Move lib r s → IsConsistent lib s
Move-IsConsistent {lib} {r} c (evolve now id j k at e w p) =
    rw p (save-IsConsistent lib r c now id j k at e w)
Move-IsConsistent {lib} {r} c (admit request fresh unused positive p) =
    rw p (admit_job-IsConsistent lib r c request fresh unused positive)

pub Moves-IsConsistent :
    {lib : Library} {r s : Repository} → IsConsistent lib r → Moves lib r s → IsConsistent lib s
Moves-IsConsistent c here = c
Moves-IsConsistent c (next ms m) = Move-IsConsistent (Moves-IsConsistent c ms) m

pub Moves-trans :
    {lib : Library} {r s t : Repository} → Moves lib r s → Moves lib s t → Moves lib r t
Moves-trans ms here = ms
Moves-trans ms (next ns n) = next (Moves-trans ms ns) n

-- A move leaves a terminal job as it is.
Move-terminal :
    {lib : Library} {r s : Repository} (i : String) (x : Job)
    → Move lib r s
    → lookup i r.jobs ≡ some x
    → is_terminal x.status ≡ true
    → lookup i s.jobs ≡ some x
Move-terminal {r = r} i x (evolve now id j k at e w p) h t =
    rw p (simp map_laws (ground (arith, eq_iff id i, Evolves-not_terminal e)))
Move-terminal {r = r} i x (admit request fresh unused positive p) h t =
    rw p (simp map_laws (ground (arith, eq_iff request.id i)))

pub Moves-terminal :
    {lib : Library} {r s : Repository} (i : String) (x : Job)
    → Moves lib r s
    → lookup i r.jobs ≡ some x
    → is_terminal x.status ≡ true
    → lookup i s.jobs ≡ some x
Moves-terminal i x here h t = h
Moves-terminal i x (next ms m) h t = Move-terminal i x m (Moves-terminal i x ms h t) t

-- The empty repository is consistent.
pub new_repository-IsConsistent : (lib : Library) → IsConsistent lib new_repository
unfolding lookup
new_repository-IsConsistent lib = record {
  well_formed = λ id j h. cc;
  named = λ id j h. cc;
  indexed = λ id j h. cc;
  described = λ key known h. cc;
}
