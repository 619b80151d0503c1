-- ===== src/Identity/Login/Bound.antt =====
-- The memory of internal/identity/auth/login_protection.go is bounded, whatever is tried.
use control_center_stable.Prelude.{
  ◌∙◌, ℕ, ◌≤◌, ◌<◌, String, none, some, List, [], ◌∷◌, ◌==◌, ◌≡◌, refl, inl, inr, ◌⊎◌, ok, eq_iff,
  arith, Option-cases, Bool-cases,
}
use control_center_stable.Prelude.Map.{
  Map, lookup, remove, size, size-insert, size-remove, size-remove-le, lookup-remove,
}
use control_center_stable.Prelude.Time.{Time, before}
use control_center_stable.Identity.Login.{
  source_key, account_key, count_failure, is_blocked, bucket_at, normalize_bucket, LoginLibrary,
  LoginProtectionPolicy, validate_policy, Bucket, LoginProtector, new_login_protector, oldest_of,
  evict_oldest, put_bucket, blocked_locked, record_failure_locked, blocked, record_login_failure,
  record_success,
}

-- The calls of the protector.
pub data LoginCall : Type 0 where
  checks fails : String → String → Time → LoginCall
  succeeds : String → LoginCall

unfoldable pub step : LoginLibrary → LoginCall → LoginProtector → LoginProtector
unfolding blocked record_login_failure record_success
step lib (checks username source now) p = (blocked lib username source now p).1
step lib (fails username source now) p = (record_login_failure lib username source now p).1
step lib (succeeds username) p = record_success lib username p

unfoldable pub run : LoginLibrary → List LoginCall → LoginProtector → LoginProtector
unfolding step
run lib [] p = p
run lib (c ∷ cs) p = run lib cs (step lib c p)

-- The oldest bucket is one of the buckets, and there is one if there are buckets.
oldest_of-some :
    (k : String) (t : Time) (m : Map Bucket)
    → (j : String) × (u : Time) × (oldest_of (some (k, t)) m ≡ some (j, u))
      × ((j ≡ k) ⊎ ((b : Bucket) × (lookup j m ≡ some b)))
unfolding oldest_of lookup
oldest_of-some k t [] = (k, t, refl, inl refl)
oldest_of-some k t ((key, b) ∷ rest) = elim (Bool-cases (before b.touched_at t)) [
  | inl older ↦
      let (j, u, q, from) = oldest_of-some key b.touched_at rest in
      (
        j,
        u,
        rw older q,
        inr (elim from [
          | inl e ↦ (b, ground (arith, eq_iff key j))
          | inr (c, l) ↦ elim (Bool-cases (key == j)) [
            | inl s ↦ (b, rw s refl)
            | inr d ↦ (c, rw d l)
          ]
        ]),
      )
  | inr newer ↦
      let (j, u, q, from) = oldest_of-some k t rest in
      (
        j,
        u,
        rw newer q,
        elim from [
          | inl e ↦ inl e
          | inr (c, l) ↦
              inr (elim (Bool-cases (key == j)) [ inl s ↦ (b, rw s refl) | inr d ↦ (c, rw d l) ])
        ],
      )
]

-- An eviction removes a bucket.
evicted :
    (m : Map Bucket)
    → 0 < size m
    → (j : String) × (b : Bucket) × (lookup j m ≡ some b) × (evict_oldest m ≡ remove j m)
unfolding evict_oldest oldest_of size lookup
evicted [] h = let no : ⊥ = omega arith in absurd no
evicted ((key, b) ∷ rest) h =
    let (j, u, q, from) = oldest_of-some key b.touched_at rest in
    elim from [
      | inl e ↦ (j, b, ground (arith, eq_iff key j), ground arith)
      | inr (c, l) ↦ elim (Bool-cases (key == j)) [
        | inl same ↦ (j, b, rw same refl, ground arith)
        | inr differs ↦ (j, c, rw differs l, ground arith)
      ]
    ]

-- It makes room.
size-evict_oldest : (m : Map Bucket) → 0 < size m → size (evict_oldest m) < size m
size-evict_oldest m h = let (j, b, l, q) = evicted m h in rw q (size-remove j b m l)

lookup-evict_oldest :
    (key : String) (m : Map Bucket) → lookup key m ≡ none → lookup key (evict_oldest m) ≡ none
unfolding evict_oldest
lookup-evict_oldest key m h = elim (Option-cases (oldest_of none m)) [
  | inl q ↦ ground arith
  | inr (o, q) ↦ ground (arith, lookup-remove o.0 key m)
]

abbrev pub IsBounded : LoginProtector → Type 0
IsBounded p = size p.buckets ≤ p.policy.max_tracked_keys

put_bucket-IsBounded :
    (key : String) (b : Bucket) (p : LoginProtector)
    → 0 < p.policy.max_tracked_keys
    → IsBounded p
    → IsBounded (put_bucket key b p)
unfolding put_bucket
put_bucket-IsBounded key b p positive h = elim (Option-cases (lookup key p.buckets)) [
  | inl q ↦ ground (
    arith,
    size-insert key b p.buckets,
    size-insert key b (evict_oldest p.buckets),
    lookup-evict_oldest key p.buckets q,
    size-evict_oldest p.buckets,
  )
  | inr (old, q) ↦ ground (arith, size-insert key b p.buckets)
]

blocked_locked-IsBounded :
    (key : String) (now : Time) (p : LoginProtector)
    → IsBounded p
    → IsBounded (blocked_locked key now p).1
unfolding blocked_locked
blocked_locked-IsBounded key now p h = elim (Option-cases (lookup key p.buckets)) [
  | inl q ↦ ground arith
  | inr (old, q) ↦ ground (
    arith,
    size-remove-le key p.buckets,
    size-insert key (record (normalize_bucket p.policy old now) { touched_at = now }) p.buckets,
  )
]

record_failure_locked-IsBounded :
    (key : String) (limit : ℕ) (now : Time) (p : LoginProtector)
    → 0 < p.policy.max_tracked_keys
    → IsBounded p
    → IsBounded (record_failure_locked key limit now p).1
unfolding record_failure_locked
record_failure_locked-IsBounded key limit now p positive h =
    let b = normalize_bucket p.policy (bucket_at key p.buckets) now in
    elim (Bool-cases (is_blocked b now)) [
      | inl q ↦ rw q (put_bucket-IsBounded key (record b { touched_at = now }) p positive h)
      | inr q ↦ rw q (put_bucket-IsBounded key (count_failure p.policy limit now b) p positive h)
    ]

-- No call changes the policy.
pub put_bucket-policy :
    (key : String) (b : Bucket) (p : LoginProtector) → (put_bucket key b p).policy ≡ p.policy
unfolding put_bucket
put_bucket-policy key b p = elim (Option-cases (lookup key p.buckets)) [
  | inl q ↦ ground arith
  | inr (old, q) ↦ ground arith
]

blocked_locked-policy :
    (key : String) (now : Time) (p : LoginProtector)
    → (blocked_locked key now p).1.policy ≡ p.policy
unfolding blocked_locked
blocked_locked-policy key now p = elim (Option-cases (lookup key p.buckets)) [
  | inl q ↦ ground arith
  | inr (old, q) ↦ ground arith
]

pub record_failure_locked-policy :
    (key : String) (limit : ℕ) (now : Time) (p : LoginProtector)
    → (record_failure_locked key limit now p).1.policy ≡ p.policy
unfolding record_failure_locked
record_failure_locked-policy key limit now p =
    let b = normalize_bucket p.policy (bucket_at key p.buckets) now in
    ground (
      arith,
      put_bucket-policy key (record b { touched_at = now }) p,
      put_bucket-policy key (count_failure p.policy limit now b) p,
    )

pub step-policy :
    (lib : LoginLibrary) (c : LoginCall) (p : LoginProtector) → (step lib c p).policy ≡ p.policy
unfolding step blocked record_login_failure record_success
step-policy lib (checks u s now) p =
    let q = (blocked_locked (account_key lib u) now p).1 in
    blocked_locked-policy (source_key lib s) now q ∙ blocked_locked-policy (account_key lib u) now p
step-policy lib (fails u s now) p =
    let q = (record_failure_locked (account_key lib u) p.policy.account_failure_limit now p).1 in
    record_failure_locked-policy (source_key lib s) p.policy.source_failure_limit now q
    ∙ record_failure_locked-policy (account_key lib u) p.policy.account_failure_limit now p
step-policy lib (succeeds u) p = refl

step-IsBounded :
    (lib : LoginLibrary) (c : LoginCall) (p : LoginProtector)
    → 0 < p.policy.max_tracked_keys
    → IsBounded p
    → IsBounded (step lib c p)
unfolding step blocked record_login_failure record_success
step-IsBounded lib (checks u s now) p positive h =
    let q = (blocked_locked (account_key lib u) now p).1 in
    blocked_locked-IsBounded (source_key lib s) now q
      (blocked_locked-IsBounded (account_key lib u) now p h)
step-IsBounded lib (fails u s now) p positive h =
    let limit = p.policy.account_failure_limit in
    let q = (record_failure_locked (account_key lib u) limit now p).1 in
    record_failure_locked-IsBounded (source_key lib s) p.policy.source_failure_limit now q
      (rw (record_failure_locked-policy (account_key lib u) limit now p) positive)
      (record_failure_locked-IsBounded (account_key lib u) limit now p positive h)
step-IsBounded lib (succeeds u) p positive h =
    ground (arith, size-remove-le (account_key lib u) p.buckets, h)

run-IsBounded :
    (lib : LoginLibrary) (cs : List LoginCall) (p : LoginProtector)
    → 0 < p.policy.max_tracked_keys
    → IsBounded p
    → IsBounded (run lib cs p)
unfolding run
run-IsBounded lib [] p positive h = h
run-IsBounded lib (c ∷ cs) p positive h =
    run-IsBounded lib cs (step lib c p) (rw (step-policy lib c p) positive)
      (step-IsBounded lib c p positive h)

pub run-policy :
    (lib : LoginLibrary) (cs : List LoginCall) (p : LoginProtector)
    → (run lib cs p).policy ≡ p.policy
unfolding run
run-policy lib [] p = refl
run-policy lib (c ∷ cs) p = run-policy lib cs (step lib c p) ∙ step-policy lib c p

valid_policy-positive :
    (policy : LoginProtectionPolicy) → validate_policy policy ≡ ok tt → 0 < policy.max_tracked_keys
unfolding validate_policy
valid_policy-positive policy h = ground arith

-- A new protector with a valid policy never tracks more keys than the policy says, whatever logins
-- are tried, from wherever, and in whatever order.
pub tracked_keys_le :
    (lib : LoginLibrary) (policy : LoginProtectionPolicy) (cs : List LoginCall)
    → validate_policy policy ≡ ok tt
    → size (run lib cs (new_login_protector policy)).buckets ≤ policy.max_tracked_keys
unfolding size
tracked_keys_le lib policy cs h =
    let bounded =
      run-IsBounded lib cs (new_login_protector policy) (valid_policy-positive policy h)
        (omega arith) in
    rw (run-policy lib cs (new_login_protector policy)) at bounded
