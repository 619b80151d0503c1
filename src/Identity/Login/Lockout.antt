-- ===== src/Identity/Login/Lockout.antt =====
-- internal/identity/auth/login_protection.go blocks nobody without cause: an account or a source that
-- is blocked has failed as often as its limit says.
use control_center_stable.Prelude.{
  ℕ, suc, ◌≤◌, String, none, some, Bool, true, false, leb, nat_eq, ◌==◌, ◌≡◌, refl, inl, inr, ◌⊎◌,
  eq_iff, arith, Option-cases, Bool-cases, ◌&&◌, not,
}
use control_center_stable.Prelude.Map.{size, Map, lookup, remove, lookup-insert, lookup-remove}
use control_center_stable.Prelude.Time.{Time, is_zero, before, add}
use control_center_stable.Identity.Login.{
  LoginProtectionPolicy, Bucket, LoginProtector, evict_oldest, put_bucket, blocked_locked,
  record_failure_locked, normalize_bucket, bucket_at, no_bucket, count_failure, is_blocked,
  oldest_of,
}

abbrev pub count_if : Bool → ℕ → ℕ
count_if true n = suc n
count_if false n = n

-- The bucket has counted at most `n` failures, and at least `limit` if it blocks.
abbrev pub Fair : ℕ → ℕ → Bucket → Type 0
Fair limit n b = (b.failures ≤ n) × ((b.blocked_until ≡ 0) ⊎ (limit ≤ b.failures))

abbrev pub Justified : ℕ → ℕ → String → Map Bucket → Type 0
Justified limit n key buckets = (b : Bucket) → lookup key buckets ≡ some b → Fair limit n b

normalize_bucket_cases :
    (p : LoginProtectionPolicy) (b : Bucket) (now : Time)
    → (normalize_bucket p b now ≡ no_bucket) ⊎ (normalize_bucket p b now ≡ b)
unfolding normalize_bucket
normalize_bucket_cases p b now =
    elim (Bool-cases (not (is_zero b.blocked_until) && not (before now b.blocked_until))) [
      | inl over ↦ inl (rw over refl)
      | inr q ↦
          elim (Bool-cases (
            is_zero b.blocked_until
            && not (is_zero b.window_started_at)
            && not (before now (add b.window_started_at p.failure_window)))) [
              | inl late ↦ inl (rw (q, late) refl)
              | inr r ↦ inr (rw (q, r) refl)
            ]
    ]

pub lookup-put_bucket :
    (key : String) (b : Bucket) (p : LoginProtector)
    → lookup key (put_bucket key b p).buckets ≡ some b
unfolding put_bucket
lookup-put_bucket key b p = elim (Option-cases (lookup key p.buckets)) [
  | inl q ↦ ground (
    arith,
    lookup-insert key key b p.buckets,
    lookup-insert key key b (evict_oldest p.buckets),
    eq_iff key key,
  )
  | inr (old, q) ↦ ground (arith, lookup-insert key key b p.buckets, eq_iff key key)
]

lookup-evict_oldest :
    (key : String) (m : Map Bucket)
    → (lookup key (evict_oldest m) ≡ none) ⊎ (lookup key (evict_oldest m) ≡ lookup key m)
unfolding evict_oldest
lookup-evict_oldest key m = elim (Option-cases (oldest_of none m)) [
  | inl q ↦ inr (ground arith)
  | inr (o, q) ↦ elim (Bool-cases (o.0 == key)) [
    | inl same ↦ inl (ground (arith, lookup-remove o.0 key m))
    | inr differs ↦ inr (ground (arith, lookup-remove o.0 key m))
  ]
]

lookup-put_other :
    (key k : String) (b : Bucket) (p : LoginProtector)
    → (key == k) ≡ false
    → (lookup k (put_bucket key b p).buckets ≡ none)
      ⊎ (lookup k (put_bucket key b p).buckets ≡ lookup k p.buckets)
unfolding put_bucket
lookup-put_other key k b p d = elim (Option-cases (lookup key p.buckets)) [
  | inr (old, q) ↦ inr (ground (arith, lookup-insert key k b p.buckets))
  | inl q ↦ elim (lookup-evict_oldest k p.buckets) [
    | inl gone ↦ elim (Bool-cases (leb p.policy.max_tracked_keys (size p.buckets))) [
      | inl full ↦ inl (ground (arith, lookup-insert key k b (evict_oldest p.buckets)))
      | inr room ↦ inr (ground (arith, lookup-insert key k b p.buckets))
    ]
    | inr kept ↦ inr (
        ground
          (arith, lookup-insert key k b p.buckets, lookup-insert key k b (evict_oldest p.buckets)))
  ]
]

module _ (limit : ℕ) (k : String) where
  pub remove-Justified :
      (key : String) (n : ℕ) (m : Map Bucket)
      → Justified limit n k m
      → Justified limit n k (remove key m)
  remove-Justified key n m h b l = h b (ground (arith, lookup-remove key k m))

  normalize_bucket-Fair :
      (p : LoginProtectionPolicy) (n : ℕ) (b : Bucket) (now : Time)
      → Fair limit n b
      → Fair limit n (normalize_bucket p b now)
  normalize_bucket-Fair p n b now h = elim (normalize_bucket_cases p b now) [
    | inl q ↦ rw q (omega arith, inl refl)
    | inr q ↦ rw q h
  ]

  bucket_at-Fair : (n : ℕ) (m : Map Bucket) → Justified limit n k m → Fair limit n (bucket_at k m)
  unfolding bucket_at
  bucket_at-Fair n m h = elim (Option-cases (lookup k m)) [
    | inl q ↦ rw (bucket_at, q) (omega arith, inl refl)
    | inr (b, q) ↦ rw (bucket_at, q) (h b q)
  ]

  count_failure-Fair :
      (p : LoginProtectionPolicy) (its : ℕ) (now : Time) (n : ℕ) (b : Bucket)
      → limit ≤ its
      → Fair limit n b
      → Fair limit (suc n) (count_failure p its now b)
  count_failure-Fair p its now n b strict h = elim (Bool-cases (leb its (suc b.failures))) [
    | inl reached ↦ (omega (arith, h.0), inr (ground arith))
    | inr below ↦
        rw below (omega (arith, h.0), elim h.1 [ inl z ↦ inl z | inr l ↦ inr (omega (arith, l)) ])
  ]

  put_bucket-Fair :
      (n : ℕ) (b : Bucket) (p : LoginProtector)
      → Fair limit n b
      → Justified limit n k (put_bucket k b p).buckets
  put_bucket-Fair n b p h c l =
      let q : b ≡ c = ground (arith, lookup-put_bucket k b p) in rw (← q) h

  put_bucket-Justified :
      (key : String) (n : ℕ) (b : Bucket) (p : LoginProtector)
      → (key == k) ≡ false
      → Justified limit n k p.buckets
      → Justified limit n k (put_bucket key b p).buckets
  put_bucket-Justified key n b p d h c l = elim (lookup-put_other key k b p d) [
    | inl gone ↦ ground arith
    | inr kept ↦ h c (ground arith)
  ]

  -- A recording counts one more failure for its key, and blocks it at the limit.
  pub record_failure_locked-Justified :
      (key : String) (its : ℕ) (now : Time) (n : ℕ) (p : LoginProtector)
      → (key ≡ k → limit ≤ its)
      → Justified limit n k p.buckets
      → Justified limit (count_if (key == k) n) k (record_failure_locked key its now p).1.buckets
  unfolding record_failure_locked
  record_failure_locked-Justified key its now n p strict h = elim (Bool-cases (key == k)) [
    | inl same ↦
        let e : key ≡ k = (eq_iff key k).0 same in
        let b = normalize_bucket p.policy (bucket_at k p.buckets) now in
        let fair =
          normalize_bucket-Fair p.policy n (bucket_at k p.buckets) now
            (bucket_at-Fair n p.buckets h) in
        rw (same, e)
          (elim (Bool-cases (is_blocked b now)) [
            | inl q ↦ rw q (
                put_bucket-Fair (suc n) (record b { touched_at = now }) p
                  (omega (arith, fair.0), fair.1))
            | inr q ↦ rw q (
                put_bucket-Fair (suc n) (count_failure p.policy its now b) p
                  (count_failure-Fair p.policy its now n b (strict e) fair))
          ])
    | inr differs ↦
        let b = normalize_bucket p.policy (bucket_at key p.buckets) now in
        rw differs (elim (Bool-cases (is_blocked b now)) [
          | inl q ↦ rw q (put_bucket-Justified key n (record b { touched_at = now }) p differs h)
          | inr q ↦ rw q (put_bucket-Justified key n (count_failure p.policy its now b) p differs h)
        ])
  ]

  pub blocked_locked-Justified :
      (key : String) (now : Time) (n : ℕ) (p : LoginProtector)
      → Justified limit n k p.buckets
      → Justified limit n k (blocked_locked key now p).1.buckets
  unfolding blocked_locked
  blocked_locked-Justified key now n p h = elim (Option-cases (lookup key p.buckets)) [
    | inl q ↦ λ c l. h c (ground arith)
    | inr (old, q) ↦
        let b = normalize_bucket p.policy old now in
        elim (Bool-cases (nat_eq b.failures 0 && is_zero b.blocked_until)) [
          | inl spent ↦ λ c l. remove-Justified key n p.buckets h c (ground arith)
          | inr kept ↦ λ c l. elim (Bool-cases (key == k)) [
            | inl same ↦
                let fair =
                  normalize_bucket-Fair p.policy n old now (h old (ground (arith, eq_iff key k))) in
                let e : record b { touched_at = now } ≡ c =
                  ground (arith, lookup-insert key k (record b { touched_at = now }) p.buckets) in
                rw (← e) (fair.0, fair.1)
            | inr differs ↦
                h c (ground (arith, lookup-insert key k (record b { touched_at = now }) p.buckets))
          ]
        ]
  ]

  pub blocked_locked_cause :
      (now : Time) (n : ℕ) (p : LoginProtector)
      → Justified limit n k p.buckets
      → (blocked_locked k now p).0 ≡ true
      → limit ≤ n
  unfolding blocked_locked
  blocked_locked_cause now n p j h = elim (Option-cases (lookup k p.buckets)) [
    | inl q ↦ ground arith
    | inr (b, q) ↦ elim (normalize_bucket_cases p.policy b now) [
      | inl none_left ↦ ground arith
      | inr same ↦ ground (arith, j b q)
    ]
  ]
