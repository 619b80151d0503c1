-- ===== src/Identity/Login/Guessing.antt =====
-- internal/identity/auth/login_protection.go stops who guesses a password: as many failures as the
-- limit says, within the window, block the account.
use control_center_stable.Prelude.{
  ◌∙◌, ℕ, suc, ◌+◌, ◌*◌, ◌≤◌, ◌<◌, String, none, some, List, [], ◌∷◌, Bool, true, false, ◌&&◌, ◌||◌,
  leb, ◌==◌, ◌≡◌, refl, inl, inr, ok, arith, Option-cases, Bool-cases, length,
}
use control_center_stable.Prelude.Map.{Map, lookup, size, lookup-insert, size-insert}
use control_center_stable.Prelude.Time.{Time, is_zero, before, add}
use control_center_stable.Identity.Login.{
  LoginLibrary, LoginProtectionPolicy, validate_policy, Bucket, LoginProtector, put_bucket,
  record_failure_locked, record_login_failure, normalize_bucket, bucket_at, no_bucket,
  count_failure, is_blocked, account_key, source_key,
}
use control_center_stable.Identity.Login.Bound.{put_bucket-policy, record_failure_locked-policy}
use control_center_stable.Identity.Login.Lockout.{lookup-put_bucket}

-- The answer to the last of some failures, and what they leave.
unfoldable pub fail_all :
    LoginLibrary → String → List (String × Time) → Bool × LoginProtector → Bool × LoginProtector
unfolding record_login_failure
fail_all lib u [] (answer, p) = (answer, p)
fail_all lib u ((source, now) ∷ rest) (answer, p) =
    fail_all lib u rest (record_login_failure lib u source now p)

-- All the failures come before a time.
unfoldable pub all_before : Time → List (String × Time) → Bool
all_before end [] = true
all_before end ((source, now) ∷ rest) = before now end && all_before end rest

-- Where there is room, a put changes one key.
put_elsewhere :
    (key k : String) (b : Bucket) (p : LoginProtector)
    → size p.buckets < p.policy.max_tracked_keys
    → (key == k) ≡ false
    → lookup k (put_bucket key b p).buckets ≡ lookup k p.buckets
unfolding put_bucket
put_elsewhere key k b p room d = elim (Option-cases (lookup key p.buckets)) [
  | inl q ↦ ground (arith, lookup-insert key k b p.buckets)
  | inr (old, q) ↦ ground (arith, lookup-insert key k b p.buckets)
]

size-put_bucket :
    (key : String) (b : Bucket) (p : LoginProtector)
    → size p.buckets < p.policy.max_tracked_keys
    → size (put_bucket key b p).buckets ≤ suc (size p.buckets)
unfolding put_bucket
size-put_bucket key b p room = elim (Option-cases (lookup key p.buckets)) [
  | inl q ↦ ground (arith, size-insert key b p.buckets)
  | inr (old, q) ↦ ground (arith, size-insert key b p.buckets)
]

-- What a recording leaves for its key and for another, where there is room.
recorded_here :
    (key : String) (limit : ℕ) (now : Time) (p : LoginProtector) (b : Bucket)
    → normalize_bucket p.policy (bucket_at key p.buckets) now ≡ b
    → b.blocked_until ≡ 0
    → record_failure_locked key limit now p ≡ (
      is_blocked (count_failure p.policy limit now b) now,
      put_bucket key (count_failure p.policy limit now b) p,
    )
unfolding record_failure_locked
recorded_here key limit now p b q z = rw q (rw z refl)

recorded_elsewhere :
    (key k : String) (limit : ℕ) (now : Time) (p : LoginProtector)
    → size p.buckets < p.policy.max_tracked_keys
    → (key == k) ≡ false
    → (lookup k (record_failure_locked key limit now p).1.buckets ≡ lookup k p.buckets)
      × (size (record_failure_locked key limit now p).1.buckets ≤ suc (size p.buckets))
unfolding record_failure_locked
recorded_elsewhere key k limit now p room d =
    let b = normalize_bucket p.policy (bucket_at key p.buckets) now in
    elim (Bool-cases (is_blocked b now)) [
      | inl q ↦ rw q (
        put_elsewhere key k (record b { touched_at = now }) p room d,
        size-put_bucket key (record b { touched_at = now }) p room,
      )
      | inr q ↦ rw q (
        put_elsewhere key k (count_failure p.policy limit now b) p room d,
        size-put_bucket key (count_failure p.policy limit now b) p room,
      )
    ]

valid_block :
    (p : LoginProtectionPolicy) (now : Time)
    → validate_policy p ≡ ok tt
    → now < add now p.block_duration
unfolding validate_policy
valid_block p now h = ground arith

limit_le : (p : LoginProtectionPolicy) → validate_policy p ≡ ok tt → 2 ≤ p.account_failure_limit
unfolding validate_policy
limit_le p h = ground arith

-- A bucket that does not block stays as long as its window lasts.
in_window :
    (p : LoginProtectionPolicy) (b : Bucket) (now : Time)
    → b.blocked_until ≡ 0
    → before now (add b.window_started_at p.failure_window) ≡ true
    → normalize_bucket p b now ≡ b
unfolding normalize_bucket
in_window p b now z w = rw (normalize_bucket, z, w) (ground arith)

first_window :
    (p : LoginProtectionPolicy) (now : Time) → normalize_bucket p no_bucket now ≡ no_bucket
unfolding normalize_bucket
first_window p now = refl

bucket_at-some :
    (k : String) (m : Map Bucket) (b : Bucket) → lookup k m ≡ some b → bucket_at k m ≡ b
unfolding bucket_at
bucket_at-some k m b h = ground arith

bucket_at-none : (k : String) (m : Map Bucket) → lookup k m ≡ none → bucket_at k m ≡ no_bucket
unfolding bucket_at
bucket_at-none k m h = ground arith

later_inside :
    (end end' : Time) (s : String) (now : Time) (rest : List (String × Time))
    → end' ≡ end
    → all_before end ((s, now) ∷ rest) ≡ true
    → all_before end' rest ≡ true
unfolding all_before
later_inside end end' s now rest e h = rw e (ground arith)

same_end :
    (p q : LoginProtectionPolicy) (b c : Bucket)
    → q ≡ p
    → c.window_started_at ≡ b.window_started_at
    → add c.window_started_at q.failure_window ≡ add b.window_started_at p.failure_window
same_end p q b c e w = rw (e, w) refl

reached :
    (p : LoginProtectionPolicy) (limit : ℕ) (now : Time) (b : Bucket)
    → validate_policy p ≡ ok tt
    → suc b.failures ≡ limit
    → is_blocked (count_failure p limit now b) now ≡ true
reached p limit now b valid e =
    let later = valid_block p now valid in
    let l : leb limit (suc b.failures) ≡ true = ground arith in rw l (ground arith)

not_reached :
    (p : LoginProtectionPolicy) (limit : ℕ) (now : Time) (b : Bucket)
    → suc b.failures < limit
    → is_zero b.window_started_at ≡ false
    → ((count_failure p limit now b).blocked_until ≡ b.blocked_until)
      × ((count_failure p limit now b).window_started_at ≡ b.window_started_at)
not_reached p limit now b e w =
    let l : leb limit (suc b.failures) ≡ false = ground arith in (rw l refl, rw w refl)

module _ (lib : LoginLibrary) (u : String)
    (apart : (t : String) → (source_key lib t == account_key lib u) ≡ false) where
  -- One failure of the account, where there is room for two keys.
  one_failure :
      (s : String) (now : Time) (p : LoginProtector) (b : Bucket)
      → normalize_bucket p.policy (bucket_at (account_key lib u) p.buckets) now ≡ b
      → b.blocked_until ≡ 0
      → 2 + size p.buckets ≤ p.policy.max_tracked_keys
      → let c = count_failure p.policy p.policy.account_failure_limit now b in
        let q = (record_login_failure lib u s now p).1 in
        (lookup (account_key lib u) q.buckets ≡ some c)
        × (size q.buckets ≤ 2 + size p.buckets)
        × (q.policy ≡ p.policy)
        × ((record_login_failure lib u s now p).0
            ≡ (is_blocked c now || (record_login_failure lib u s now p).0))
  unfolding record_login_failure
  one_failure s now p b normal z room =
      let k = account_key lib u in
      let limit = p.policy.account_failure_limit in
      let c : Bucket = count_failure p.policy limit now b in
      let here = recorded_here k limit now p b normal z in
      let q = put_bucket k c p in
      let same : q.policy ≡ p.policy = put_bucket-policy k c p in
      let grown = size-put_bucket k c p (omega (arith, room)) in
      let (other, more) =
        recorded_elsewhere (source_key lib s) k p.policy.source_failure_limit now q
          (rw same (omega (arith, grown, room))) (apart s) in
      rw here (
        other ∙ lookup-put_bucket k c p,
        omega (arith, more, grown),
        record_failure_locked-policy (source_key lib s) p.policy.source_failure_limit now q ∙ same,
        ground arith,
      )

  guesses_blocked :
      (attempts : List (String × Time)) (i : ℕ) (answer : Bool) (p : LoginProtector) (b : Bucket)
      → lookup (account_key lib u) p.buckets ≡ some b
      → b.failures ≡ i
      → b.blocked_until ≡ 0
      → is_zero b.window_started_at ≡ false
      → validate_policy p.policy ≡ ok tt
      → all_before (add b.window_started_at p.policy.failure_window) attempts ≡ true
      → size p.buckets + 2 * length attempts ≤ p.policy.max_tracked_keys
      → i + length attempts ≡ p.policy.account_failure_limit
      → 0 < length attempts
      → (fail_all lib u attempts (answer, p)).0 ≡ true
  unfolding fail_all all_before
  guesses_blocked [] i answer p b l f z w valid inside room count some_left =
      let no : ⊥ = omega (arith, some_left) in absurd no
  guesses_blocked ((s, now) ∷ []) i answer p b l f z w valid inside room count some_left =
      let limit = p.policy.account_failure_limit in
      let normal : normalize_bucket p.policy (bucket_at (account_key lib u) p.buckets) now ≡ b =
        rw (bucket_at-some (account_key lib u) p.buckets b l)
          (in_window p.policy b now z (ground arith)) in
      let (at, grown, same, answers) = one_failure s now p b normal z (omega (arith, room)) in
      let held = reached p.policy limit now b valid (omega (arith, count, f)) in
      answers ∙ rw held refl
  guesses_blocked ((s, now) ∷ next ∷ rest) i answer p b l f z w valid inside room count some_left =
      let limit = p.policy.account_failure_limit in
      let c : Bucket = count_failure p.policy limit now b in
      let q = (record_login_failure lib u s now p).1 in
      let normal : normalize_bucket p.policy (bucket_at (account_key lib u) p.buckets) now ≡ b =
        rw (bucket_at-some (account_key lib u) p.buckets b l)
          (in_window p.policy b now z (ground arith)) in
      let (at, grown, same, answers) = one_failure s now p b normal z (omega (arith, room)) in
      let (unblocked, window) = not_reached p.policy limit now b (omega (arith, count, f)) w in
      guesses_blocked (next ∷ rest) (suc i) (record_login_failure lib u s now p).0 q c at
        (omega (arith, f)) (unblocked ∙ z) (rw window w) (rw same valid)
        (later_inside (add b.window_started_at p.policy.failure_window)
          (add c.window_started_at q.policy.failure_window) s now (next ∷ rest)
          (same_end p.policy q.policy b c same window) inside)
        (rw same (omega (arith, grown, room))) (rw same (omega (arith, count))) (omega arith)

  -- An account without a recorded failure, of a valid policy, that fails as often as the limit says,
  -- from whatever sources, all before the end of the window of the first failure, is refused at the
  -- last failure, if no source has the key of the account and no key has to be evicted.
  pub guessing_blocked :
      (s : String) (start : Time) (rest : List (String × Time)) (p : LoginProtector)
      → validate_policy p.policy ≡ ok tt
      → lookup (account_key lib u) p.buckets ≡ none
      → is_zero start ≡ false
      → all_before (add start p.policy.failure_window) rest ≡ true
      → size p.buckets + 2 * length ((s, start) ∷ rest) ≤ p.policy.max_tracked_keys
      → length ((s, start) ∷ rest) ≡ p.policy.account_failure_limit
      → (fail_all lib u ((s, start) ∷ rest) (false, p)).0 ≡ true
  unfolding fail_all
  guessing_blocked s start rest p valid unknown w inside room count =
      let limit = p.policy.account_failure_limit in
      let c : Bucket = count_failure p.policy limit start no_bucket in
      let q = (record_login_failure lib u s start p).1 in
      let normal : normalize_bucket p.policy (bucket_at (account_key lib u) p.buckets) start
          ≡ no_bucket =
        rw (bucket_at-none (account_key lib u) p.buckets unknown) (first_window p.policy start) in
      let (at, grown, same, answers) =
        one_failure s start p no_bucket normal refl (omega (arith, room)) in
      let many : 2 ≤ limit = limit_le p.policy valid in
      let l : leb limit 1 ≡ false = ground arith in
      guesses_blocked rest 1 (record_login_failure lib u s start p).0 q c at refl (rw l refl) w
        (rw same valid) (rw same inside) (rw same (omega (arith, grown, room)))
        (rw same (omega (arith, count))) (omega (arith, count, many))
