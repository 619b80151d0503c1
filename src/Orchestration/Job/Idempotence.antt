-- ===== src/Orchestration/Job/Idempotence.antt =====
-- Idempotency keys: `Create` of internal/orchestration/job/memory.go, called again.
use control_center_stable.Prelude.{
  String, ◌≡◌, ◌≢◌, refl, Option, none, some, true, false, arith, eq_iff, ◌==◌, ok, err,
}
use control_center_stable.Prelude.Map.{lookup}
use control_center_stable.Prelude.Library.{Library}
use control_center_stable.Orchestration.Job.Model.{Job, CreateRequest, idempotency_conflict}
use control_center_stable.Orchestration.Job.Steps.{fingerprint}
use control_center_stable.Orchestration.Job.Memory.{
  IdempotencyRecord, Repository, create, check_create, create_locked, lacks_identity, lacks_input,
  lacks_schedule,
}
use control_center_stable.Orchestration.Job.Consistent.{
  IsConsistent, request_of, Describes, Indexes,
}

-- The request passes the checks of `Create`.
pub record IsValid (lib : Library) (request : CreateRequest) : Type 0 where
  pub identified : lacks_identity request ≡ false
  pub filled : lacks_input lib request ≡ false
  pub scheduled : lacks_schedule request ≡ false

module _ (lib : Library) (r : Repository) (c : IsConsistent lib r) (request : CreateRequest)
    (v : IsValid lib request) where
  create_checked : create lib none request r ≡ create_locked lib request r
  unfolding create check_create
  create_checked = rw (v.identified, v.filled, v.scheduled)

  indexed_record :
      (o : Option IdempotencyRecord) (id : String)
      → Indexes id o
      → (known : IdempotencyRecord) × (o ≡ some known) × (known.job_id ≡ id)
  indexed_record none id h = absurd h
  indexed_record (some known) id h = (known, refl, h)

  -- A job's idempotency record holds the fingerprint of the job's request.
  recorded :
      (id : String) (j : Job)
      → lookup id r.jobs ≡ some j
      → (known : IdempotencyRecord) × (lookup j.idempotency_key r.idempotency ≡ some known)
        × (known.job_id ≡ id)
        × (known.fingerprint ≡ fingerprint lib (request_of j))
  recorded id j at =
      let (known, e, names) =
        indexed_record (lookup j.idempotency_key r.idempotency) id (c.indexed id j at) in
      let at' : lookup known.job_id r.jobs ≡ some j = rw names at in
      let d : Describes lib j.idempotency_key known (some j) =
        rw at' at (c.described j.idempotency_key known e) in
      (known, e, names, d.1)

  -- A valid request with the idempotency key and the fingerprint of a job of the repository returns
  -- that job as it is now, as not created, and changes nothing.
  pub create_repeated :
      (id : String) (j : Job)
      → lookup id r.jobs ≡ some j
      → request.idempotency_key ≡ j.idempotency_key
      → fingerprint lib request ≡ fingerprint lib (request_of j)
      → create lib none request r ≡ (ok (j, false), r)
  unfolding create_locked
  create_repeated id j at key same =
      let (known, e, names, print) = recorded id j at in
      let e' : lookup request.idempotency_key r.idempotency ≡ some known = rw key e in
      let at' : lookup known.job_id r.jobs ≡ some j = rw names at in
      let match : (known.fingerprint == fingerprint lib request) ≡ true =
        (eq_iff known.fingerprint (fingerprint lib request)).1 (cc) in
      rw (create_checked, e', create_locked) (rw (match, at'))

  -- A valid request with the idempotency key of a job of the repository, and another fingerprint, is
  -- an idempotency conflict and changes nothing.
  pub create_conflict :
      (id : String) (j : Job)
      → lookup id r.jobs ≡ some j
      → request.idempotency_key ≡ j.idempotency_key
      → fingerprint lib request ≢ fingerprint lib (request_of j)
      → create lib none request r ≡ (err idempotency_conflict, r)
  unfolding create_locked
  create_conflict id j at key differs =
      let (known, e, names, print) = recorded id j at in
      let e' : lookup request.idempotency_key r.idempotency ≡ some known = rw key e in
      let clash : (known.fingerprint == fingerprint lib request) ≡ false =
        ground (arith, eq_iff known.fingerprint (fingerprint lib request)) in
      rw (create_checked, e', create_locked) (rw clash)
