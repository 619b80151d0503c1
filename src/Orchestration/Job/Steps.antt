-- ===== src/Orchestration/Job/Steps.antt =====
-- internal/orchestration/job/memory.go: what each operation does to one job.
-- `clone` copies a job, so it is the job here. Where the code tests a status, the tests are the
-- functions `is_…` below.
use control_center_stable.Prelude.{
  ◌≡◌, refl, ◌⊎◌, inl, inr, ℕ, zero, suc, ◌+◌, ◌-◌, String, Option, none, some, [], ◌∷◌, Bool, true,
  false, not, ◌&&◌, ◌||◌, ltb, leb, ◌==◌, if◌then◌else◌, Result, ok, err,
}
use control_center_stable.Prelude.Time.{
  Time, Duration, pos, second, exceeds, double, after, is_positive, add, next_u64,
}
use control_center_stable.Prelude.Library.{Library, concat, nul}
use control_center_stable.Orchestration.Events.{Output}
use control_center_stable.Orchestration.Job.Model.{
  Error, lease_lost, Status, queued, running, retry_wait, cancel_requested, cancelled, succeeded,
  failed, Lease, Job, CreateRequest, RetryPolicy,
}

abbrev pub is_queued : Status → Bool
is_queued queued = true
is_queued _ = false

abbrev pub is_running : Status → Bool
is_running running = true
is_running _ = false

abbrev pub is_retry_wait : Status → Bool
is_retry_wait retry_wait = true
is_retry_wait _ = false

abbrev pub is_cancel_requested : Status → Bool
is_cancel_requested cancel_requested = true
is_cancel_requested _ = false

-- `candidate.Lease != nil && !candidate.Lease.ExpiresAt.After(now)`
abbrev pub lease_expired : Option Lease → Time → Bool
lease_expired none now = false
lease_expired (some l) now = not (after l.expires_at now)

unfoldable pub fingerprint : Library → CreateRequest → String
fingerprint lib request =
    lib.sha256_hex
      (concat (request.change_id ∷ nul ∷ request.action_name ∷ nul ∷ request.input ∷ []))

unfoldable pub lease_token : Library → Job → String → Time → String
lease_token lib candidate worker_id now = lib.sha256_hex (
    concat (
      candidate.id
      ∷ ":"
      ∷ worker_id
      ∷ ":"
      ∷ lib.decimal candidate.version
      ∷ ":"
      ∷ lib.unix_nano now
      ∷ []))

-- The job that `Create` stores.
abbrev pub created_job : CreateRequest → Job
created_job request = record {
  id = request.id;
  change_id = request.change_id;
  action_name = request.action_name;
  input = request.input;
  idempotency_key = request.idempotency_key;
  status = queued;
  attempt = 0;
  max_attempts = request.max_attempts;
  next_attempt_at = 0;
  lease = none;
  output = none;
  last_error = "";
  created_at = request.now;
  updated_at = request.now;
  version = 1;
}

-- The job that may be claimed: queued, due for a retry, or running with an expired lease.
unfoldable pub eligible : Job → Time → Bool
eligible candidate now =
    is_queued candidate.status
    || is_retry_wait candidate.status && not (after candidate.next_attempt_at now)
    || is_running candidate.status && lease_expired candidate.lease now

abbrev pub expire_cancel : Job → Time → Job
expire_cancel j now = record j {
  status = cancelled;
  lease = none;
  updated_at = now;
  version = next_u64 j.version;
}

abbrev pub exhaust : Job → Time → Job
exhaust j now = record j {
  status = failed;
  last_error = "maximum attempts exhausted";
  lease = none;
  updated_at = now;
  version = next_u64 j.version;
}

-- The job as it stands when the token of its lease is made.
abbrev pub start_attempt : Job → Time → Job
start_attempt j now = record j {
  attempt = j.attempt + 1;
  status = running;
  next_attempt_at = 0;
  last_error = "";
  version = next_u64 j.version;
  updated_at = now;
}

abbrev pub take_lease : Library → Job → String → Time → Duration → Job
take_lease lib j worker_id now ttl =
    let started = start_attempt j now in
    record started {
      lease = some (record {
        token = lease_token lib started worker_id now;
        worker_id = worker_id;
        expires_at = add now ttl;
      });
    }

-- What the loop of `Claim` does with one candidate.
pub data Visit : Type 0 where
  skip : Visit
  write : Job → Visit
  claim_it : Job → Visit

pub Visit-cases :
    (v : Visit) → (v ≡ skip) ⊎ (((j : Job) × (v ≡ write j)) ⊎ ((j : Job) × (v ≡ claim_it j)))
Visit-cases skip = inl refl
Visit-cases (write j) = inr (inl (j, refl))
Visit-cases (claim_it j) = inr (inr (j, refl))

unfoldable pub visit : Library → String → Time → Duration → Job → Visit
unfolding eligible
visit lib worker_id now ttl candidate =
    if is_cancel_requested candidate.status && lease_expired candidate.lease now
    then write (expire_cancel candidate now)
    else if not (eligible candidate now)
    then skip
    else if leb candidate.max_attempts candidate.attempt
    then write (exhaust candidate now)
    else claim_it (take_lease lib candidate worker_id now ttl)

unfoldable pub check_lease : Job → String → Time → Result Error Job
check_lease found token now =
    if not (is_running found.status) && not (is_cancel_requested found.status)
    then err lease_lost
    else elim found.lease [
      | none ↦ err lease_lost
      | some l ↦
          if not (l.token == token) || not (after l.expires_at now)
          then err lease_lost
          else ok found
    ]

abbrev pub extend : Time → Lease → Lease
extend expires_at l = record l { expires_at = expires_at }

abbrev pub renew : Job → Time → Duration → Job
renew j now ttl = record j {
  lease = elim j.lease [ none ↦ none | some l ↦ some (extend (add now ttl) l) ];
  updated_at = now;
  version = next_u64 j.version;
}

abbrev pub complete : Job → Output → Time → Job
complete j output now =
    let finished =
      if is_cancel_requested j.status
      then record j { status = cancelled }
      else record j { status = succeeded; output = some output } in
    record finished { lease = none; updated_at = now; version = next_u64 j.version }

-- The doubling loop of `retryDelay`, for the rounds that are left.
unfoldable pub double_delay : ℕ → Duration → Duration
double_delay zero delay = delay
double_delay (suc rounds) delay = elim (exceeds delay (pos 4611686018427387904)) [
  | true ↦ delay
  | false ↦ double_delay rounds (double delay)
]

-- `retryDelay`
unfoldable pub retry_delay : ℕ → RetryPolicy → Duration
unfolding double_delay
retry_delay attempt policy =
    let base = if is_positive policy.base_delay then policy.base_delay else second in
    let delay = double_delay (attempt - 1) base in
    if is_positive policy.max_delay && exceeds delay policy.max_delay
    then policy.max_delay
    else delay

abbrev pub record_failure : Job → String → Output → RetryPolicy → Time → Job
record_failure j text output policy now =
    let noted = record j { last_error = text; output = some output; lease = none } in
    let decided =
      if is_cancel_requested j.status
      then record noted { status = cancelled }
      else if ltb j.attempt j.max_attempts
      then record noted {
        status = retry_wait;
        next_attempt_at = add now (retry_delay j.attempt policy);
      }
      else record noted { status = failed; next_attempt_at = 0 } in
    record decided { updated_at = now; version = next_u64 j.version }

abbrev pub request_stop : Job → Time → Job
request_stop j now =
    let stopped =
      if is_running j.status
      then record j { status = cancel_requested }
      else record j { status = cancelled; lease = none } in
    record stopped { updated_at = now; version = next_u64 j.version }
