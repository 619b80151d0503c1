-- ===== src/Orchestration/Job/Leases.antt =====
-- Who may finish a job: the lease checks of `RenewLease`, `Succeed` and `Fail`, against `Claim` and
-- the two cancellations (internal/orchestration/job/memory.go, cancel_version.go).
use control_center_stable.Prelude.{
  ℕ, ◌<◌, String, ◌≡◌, ◌≢◌, Option, none, some, true, false, arith, eq_iff, ◌==◌, ok, err,
  Result-cases, ◌↔◌, inl, inr, nat_eq, refl, Bool-cases, if◌then◌else◌,
}
use control_center_stable.Prelude.Map.{lookup, map_laws}
use control_center_stable.Prelude.Time.{Time, Duration, is_positive, next_u64, pos}
use control_center_stable.Prelude.Library.{Library}
use control_center_stable.Orchestration.Events.{Output}
use control_center_stable.Orchestration.Job.Model.{
  Error, lease_lost, version_conflict, Job, Lease, running, cancelled, RetryPolicy,
}
use control_center_stable.Orchestration.Job.Steps.{
  check_lease, renew, complete, record_failure, request_stop, lease_token, start_attempt,
  take_lease,
}
use control_center_stable.Orchestration.Job.Memory.{
  Repository, save, leased, renew_lease, succeed, fail, request_cancel, request_cancel_if_version,
  claim,
}
use control_center_stable.Orchestration.Job.Lifecycle.{holds_lease, Evolves}
use control_center_stable.Orchestration.Job.Claims.{HandsOut}

-- The caller holds the job: the job has a lease of that token which has not expired.
abbrev pub HoldsWith : Option Lease → String → Time → Type 0
HoldsWith none token now = ⊥
HoldsWith (some l) token now = (l.token ≡ token) × (now < l.expires_at)

abbrev pub Holds : Job → String → Time → Type 0
Holds j token now = (holds_lease j.status ≡ true) × HoldsWith j.lease token now

-- The comparison of a lease's token.
abbrev TokenIff : Option Lease → String → Type 0
TokenIff none token = Unit
TokenIff (some l) token = (l.token == token ≡ true) ↔ (l.token ≡ token)

token_iff : (o : Option Lease) (token : String) → TokenIff o token
token_iff none token = tt
token_iff (some l) token = eq_iff l.token token

check_lease_ok :
    (j f : Job) (token : String) (now : Time) → check_lease j token now ≡ ok f → Holds j token now
unfolding check_lease
check_lease_ok j f token now h = ground (arith, token_iff j.lease token)

check_lease_err :
    (j : Job) (token : String) (now : Time) (e : Error)
    → check_lease j token now ≡ err e
    → e ≡ lease_lost
unfolding check_lease
check_lease_err j token now e h = ground arith

check_lease-Holds :
    (j : Job) (token : String) (now : Time) → Holds j token now → check_lease j token now ≡ ok j
unfolding check_lease
check_lease-Holds j token now h = ground (arith, token_iff j.lease token)

check_lease-refused :
    (j : Job) (token : String) (now : Time)
    → ¬ Holds j token now
    → check_lease j token now ≡ err lease_lost
check_lease-refused j token now h = elim (Result-cases (check_lease j token now)) [
  | inl (f, held) ↦ absurd (h (check_lease_ok j f token now held))
  | inr (e, refused) ↦ rw (check_lease_err j token now e refused) at refused
]

-- What the three calls of a worker return at a time, and what they leave.
module _ (r : Repository) (id token : String) (now : Time) (ttl : Duration) (output : Output)
    (text : String) (policy : RetryPolicy) where
  -- All three are refused with `ErrLeaseLost` and change nothing.
  abbrev pub Fenced : Type 0
  Fenced =
      (renew_lease none id token now ttl r ≡ (err lease_lost, r))
      × (succeed none id token output now r ≡ (err lease_lost, r))
      × (fail none id token text output policy now r ≡ (err lease_lost, r))

  -- All three store what they make of the job.
  abbrev pub Admitted : Job → Type 0
  Admitted j =
      (renew_lease none id token now ttl r ≡ (ok (renew j now ttl), save id (renew j now ttl) r))
      × (succeed none id token output now r
          ≡ (ok (complete j output now), save id (complete j output now) r))
      × (fail none id token text output policy now r ≡ (
        ok (record_failure j text output policy now),
        save id (record_failure j text output policy now) r,
      ))

text_nonempty : (text : String) → (text ≢ "") → (text == "") ≡ false
text_nonempty text h = ground (arith, eq_iff text "")

nonzero : (v : ℕ) → 0 < v → nat_eq v 0 ≡ false
nonzero v h = ground arith

same_sym : (v w : ℕ) → nat_eq w v ≡ true → nat_eq v w ≡ true
same_sym v w h = ground arith

differs_sym : (v w : ℕ) → nat_eq w v ≡ false → nat_eq v w ≡ false
differs_sym v w h = ground arith

next_differs : (v w : ℕ) → w ≡ next_u64 v → v < 18446744073709551616 → nat_eq v w ≡ false
next_differs v w e h = ground arith

module _ (r : Repository) (id : String) (j : Job) (at : lookup id r.jobs ≡ some j) (token : String)
    (now : Time) (ttl : Duration) (output : Output) (text : String) (policy : RetryPolicy)
    (positive : is_positive ttl ≡ true) (nonempty : text ≢ "") where
  -- A worker whose token is that of the job's lease, before the lease expires, renews the lease by a
  -- positive duration, completes the job, or fails it with a message: each call stores what it makes
  -- of the job, and returns it.
  pub leased_calls-Admitted : Holds j token now → Admitted r id token now ttl output text policy j
  unfolding renew_lease succeed fail leased
  leased_calls-Admitted h = (
    rw (positive, at, check_lease-Holds j token now h),
    rw (at, check_lease-Holds j token now h),
    rw (text_nonempty text nonempty, at, check_lease-Holds j token now h),
  )

  -- On a job that runs under no lease of that token, or under one that has expired, the same three
  -- calls return `ErrLeaseLost` and change nothing.
  pub leased_calls-Fenced : ¬ Holds j token now → Fenced r id token now ttl output text policy
  unfolding renew_lease succeed fail leased
  leased_calls-Fenced h = (
    rw (positive, at, check_lease-refused j token now h),
    rw (at, check_lease-refused j token now h),
    rw (text_nonempty text nonempty, at, check_lease-refused j token now h),
  )

-- After a claim has handed a job out, a token that is not the one of the new lease is refused by
-- `RenewLease` with a positive duration, by `Succeed` and by `Fail` with a message, at any time, with
-- `ErrLeaseLost` and no change: a worker whose lease was taken over cannot finish the job.
pub takeover-Fenced :
    (lib : Library) (worker_id token : String) (now later : Time) (ttl ttl' : Duration)
    (output : Output) (text : String) (policy : RetryPolicy) (r : Repository) (j : Job)
    (h : HandsOut lib worker_id now ttl r j (claim lib none worker_id now ttl r))
    → lease_token lib (start_attempt h.found now) worker_id now ≢ token
    → is_positive ttl' ≡ true
    → text ≢ ""
    → Fenced (claim lib none worker_id now ttl r).1 h.holder token later ttl' output text policy
takeover-Fenced lib worker_id token now later ttl ttl' output text policy r j h other positive
      nonempty =
    leased_calls-Fenced (claim lib none worker_id now ttl r).1 h.holder
      (take_lease lib h.found worker_id now ttl) h.stored token later ttl' output text policy
      positive nonempty (λ held. other held.1.0)

stopped :
    (r : Repository) (id : String) (j : Job) (now : Time)
    → lookup id r.jobs ≡ some j
    → j.status ≡ running
    → lookup id (request_cancel none id now r).1.jobs ≡ some (request_stop j now)
unfolding request_cancel
stopped r id j now at busy = rw (at, busy) (simp map_laws (ground (arith, busy, eq_iff id id)))

stop-Holds :
    (j : Job) (token : String) (now later : Time)
    → j.status ≡ running
    → Holds j token later
    → Holds (request_stop j now) token later
stop-Holds j token now later busy held = ground arith

-- Once a running job is asked to stop, the worker that still holds it cannot make it succeed, fail
-- or retry: `Succeed` and `Fail` cancel it, and `Succeed` stores no output.
pub cancel_wins :
    (r : Repository) (id token : String) (j : Job) (now later : Time) (output : Output)
    (text : String) (policy : RetryPolicy)
    → lookup id r.jobs ≡ some j
    → j.status ≡ running
    → Holds j token later
    → (text ≢ "")
    → let r' = (request_cancel none id now r).1 in
      let k = complete (request_stop j now) output later in
      let l = record_failure (request_stop j now) text output policy later in
      (succeed none id token output later r' ≡ (ok k, save id k r'))
      × (fail none id token text output policy later r' ≡ (ok l, save id l r'))
      × (k.status ≡ cancelled)
      × (k.output ≡ j.output)
      × (l.status ≡ cancelled)
cancel_wins r id token j now later output text policy at busy held nonempty =
    let r' = (request_cancel none id now r).1 in
    let at' : lookup id r'.jobs ≡ some (request_stop j now) = stopped r id j now at busy in
    let held' : Holds (request_stop j now) token later = stop-Holds j token now later busy held in
    let calls =
      leased_calls-Admitted r' id (request_stop j now) at' token later (pos 1) output text policy
        refl nonempty held' in
    (calls.1, calls.2, rw busy, rw busy, rw busy)

module _ (r : Repository) (id : String) (j : Job) (at : lookup id r.jobs ≡ some j)
    (now : Time) where
  -- A cancellation that names the job's version is the plain cancellation; one that names another
  -- version, not 0, is a version conflict and changes nothing.
  pub cancel_version :
      (version : ℕ)
      → 0 < version
      → request_cancel_if_version none id version now r ≡ (
          if nat_eq version j.version
          then request_cancel none id now r
          else (err version_conflict, r))
  unfolding request_cancel request_cancel_if_version
  cancel_version version positive = elim (Bool-cases (nat_eq version j.version)) [
    | inl e ↦ rw (nonzero version positive, at, e, same_sym j.version version e)
    | inr d ↦ rw (nonzero version positive, at, d, differs_sym j.version version d)
  ]

-- A cancellation that was decided on a job's version is refused once the job has evolved.
pub cancel_stale :
    (r : Repository) (id : String) (j k : Job) (then_at now : Time)
    → Evolves then_at j k
    → lookup id r.jobs ≡ some k
    → 0 < j.version
    → j.version < 18446744073709551616
    → request_cancel_if_version none id j.version now r ≡ (err version_conflict, r)
cancel_stale r id j k then_at now e at positive small =
    rw (cancel_version r id k at now j.version positive)
      (rw (next_differs j.version k.version e.next_version small))
