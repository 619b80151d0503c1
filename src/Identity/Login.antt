-- ===== src/Identity/Login.antt =====
-- internal/identity/auth/login_protection.go: failed logins are counted by account and by source, and
-- too many of them block. The mutex makes a call one step, which takes the protector and returns its
-- answer beside the protector that it leaves.
pub mod Bound
mod Lockout
pub mod Causes
pub mod Guessing
use control_center_stable.Prelude.{
  ℕ, suc, String, Option, none, some, List, [], ◌∷◌, Bool, true, false, not, ◌&&◌, ◌||◌, ltb, leb,
  nat_eq, ◌==◌, if◌then◌else◌, Result, ok, err, ◌*◌,
}
use control_center_stable.Prelude.Map.{Map, empty, lookup, insert, remove, size}
use control_center_stable.Prelude.Time.{
  Time, Duration, is_zero, before, add, exceeds, pos, minute, hour,
}
use control_center_stable.Prelude.Library.{concat, nul}

-- What the code calls of Go's standard library: `strings.TrimSpace`, `strings.ToLower`,
-- `net.ParseIP` with `IP.String`, and the SHA-256 of a text in hexadecimal.
pub record LoginLibrary : Type 0 where
  pub trim_space : String → String
  pub to_lower : String → String
  pub parse_ip : String → Option String
  pub sha256_hex : String → String

pub record LoginProtectionPolicy : Type 0 where
  pub failure_window : Duration
  pub account_failure_limit : ℕ
  pub source_failure_limit : ℕ
  pub block_duration : Duration
  pub max_tracked_keys : ℕ

-- `DefaultLoginProtectionPolicy`
abbrev pub default_policy : LoginProtectionPolicy
default_policy = record {
  failure_window = pos (10 * minute);
  account_failure_limit = 8;
  source_failure_limit = 30;
  block_duration = pos (15 * minute);
  max_tracked_keys = 10000;
}

-- `validate`
unfoldable pub validate_policy : LoginProtectionPolicy → Result String (Unit {0})
validate_policy p =
    if exceeds (pos minute) p.failure_window || exceeds p.failure_window (pos hour)
    then err "login failure window outside allowed range"
    else if ltb p.account_failure_limit 2 || ltb 100 p.account_failure_limit
    then err "login account failure limit outside allowed range"
    else if ltb p.source_failure_limit p.account_failure_limit || ltb 1000 p.source_failure_limit
    then err "login source failure limit outside allowed range"
    else if exceeds (pos minute) p.block_duration || exceeds p.block_duration (pos (24 * hour))
    then err "login block duration outside allowed range"
    else if ltb p.max_tracked_keys 128 || ltb 1000000 p.max_tracked_keys
    then err "login protection key bound outside allowed range"
    else ok tt

-- `loginAttemptBucket`
pub record Bucket : Type 0 where
  pub window_started_at : Time
  pub failures : ℕ
  pub blocked_until : Time
  pub touched_at : Time

abbrev pub no_bucket : Bucket
no_bucket = record { window_started_at = 0; failures = 0; blocked_until = 0; touched_at = 0 }

pub record LoginProtector : Type 0 where
  pub policy : LoginProtectionPolicy
  pub buckets : Map Bucket

abbrev pub new_login_protector : LoginProtectionPolicy → LoginProtector
new_login_protector policy = record { policy = policy; buckets = empty }

module _ (lib : LoginLibrary) where
  -- `protectedLoginKey`
  abbrev pub protected_login_key : String → String → String
  protected_login_key kind value = lib.sha256_hex (concat (kind ∷ nul ∷ value ∷ []))

  -- `loginAccountProtectionKey`, with `normalizeUsername`
  abbrev pub account_key : String → String
  account_key username = protected_login_key "account" (lib.to_lower (lib.trim_space username))

  abbrev pub canonical_source : String → String
  canonical_source source = elim (lib.parse_ip source) [ some ip ↦ ip | none ↦ lib.to_lower source ]

  -- `loginSourceProtectionKey`
  abbrev pub source_key : String → String
  source_key source_ip =
      let source = canonical_source (lib.trim_space source_ip) in
      protected_login_key "source" (if source == "" then "unknown" else source)

-- `!bucket.BlockedUntil.IsZero() && now.Before(bucket.BlockedUntil)`
abbrev pub is_blocked : Bucket → Time → Bool
is_blocked b now = not (is_zero b.blocked_until) && before now b.blocked_until

-- `normalizeBucket`
unfoldable pub normalize_bucket : LoginProtectionPolicy → Bucket → Time → Bucket
normalize_bucket p b now =
    if not (is_zero b.blocked_until) && not (before now b.blocked_until)
    then no_bucket
    else if is_zero b.blocked_until
        && not (is_zero b.window_started_at)
        && not (before now (add b.window_started_at p.failure_window))
    then no_bucket
    else b

-- `p.buckets[key]`, the zero value for a missing key
unfoldable pub bucket_at : String → Map Bucket → Bucket
bucket_at key buckets = elim (lookup key buckets) [ none ↦ no_bucket | some b ↦ b ]

-- The loop of `evictOldestLocked`; Go ranges over the map in an order of its own, here that of the
-- list, which decides between buckets touched at one time.
unfoldable pub oldest_of : Option (String × Time) → Map Bucket → Option (String × Time)
oldest_of oldest [] = oldest
oldest_of none ((key, b) ∷ rest) = oldest_of (some (key, b.touched_at)) rest
oldest_of (some (k, t)) ((key, b) ∷ rest) =
    let newer = oldest_of (some (k, t)) rest in
    let older = oldest_of (some (key, b.touched_at)) rest in
    if before b.touched_at t then older else newer

unfoldable pub evict_oldest : Map Bucket → Map Bucket
unfolding oldest_of
evict_oldest buckets = elim (oldest_of none buckets) [
  | none ↦ buckets
  | some (key, t) ↦ remove key buckets
]

-- `putBucketLocked`
unfoldable pub put_bucket : String → Bucket → LoginProtector → LoginProtector
unfolding evict_oldest size
put_bucket key b p = elim (lookup key p.buckets) [
  | some old ↦ record p { buckets = insert key b p.buckets }
  | none ↦ record p {
    buckets = insert key b (
        if leb p.policy.max_tracked_keys (size p.buckets)
        then evict_oldest p.buckets
        else p.buckets);
  }
]

-- `blockedLocked`
unfoldable pub blocked_locked : String → Time → LoginProtector → Bool × LoginProtector
unfolding normalize_bucket
blocked_locked key now p = elim (lookup key p.buckets) [
  | none ↦ (false, p)
  | some found ↦
      let b = normalize_bucket p.policy found now in
      if nat_eq b.failures 0 && is_zero b.blocked_until
      then (false, record p { buckets = remove key p.buckets })
      else (
        is_blocked b now,
        record p { buckets = insert key (record b { touched_at = now }) p.buckets },
      )
]

-- The failure is counted, and blocks at the limit.
abbrev pub count_failure : LoginProtectionPolicy → ℕ → Time → Bucket → Bucket
count_failure p limit now b = record b {
  window_started_at = if is_zero b.window_started_at then now else b.window_started_at;
  failures = suc b.failures;
  blocked_until = if leb limit (suc b.failures) then add now p.block_duration else b.blocked_until;
  touched_at = now;
}

-- `recordFailureLocked`
unfoldable pub record_failure_locked : String → ℕ → Time → LoginProtector → Bool × LoginProtector
unfolding normalize_bucket bucket_at put_bucket
record_failure_locked key limit now p =
    let b = normalize_bucket p.policy (bucket_at key p.buckets) now in
    let counted = count_failure p.policy limit now b in
    if is_blocked b now
    then (true, put_bucket key (record b { touched_at = now }) p)
    else (is_blocked counted now, put_bucket key counted p)

module _ (lib : LoginLibrary) where
  -- `Blocked`
  unfoldable pub blocked : String → String → Time → LoginProtector → Bool × LoginProtector
  unfolding blocked_locked
  blocked username source_ip now p =
      let (account, q) = blocked_locked (account_key lib username) now p in
      let (source, r) = blocked_locked (source_key lib source_ip) now q in (account || source, r)

  -- `RecordFailure`
  unfoldable pub record_login_failure :
      String → String → Time → LoginProtector → Bool × LoginProtector
  unfolding record_failure_locked
  record_login_failure username source_ip now p =
      let (account, q) =
        record_failure_locked (account_key lib username) p.policy.account_failure_limit now p in
      let (source, r) =
        record_failure_locked (source_key lib source_ip) p.policy.source_failure_limit now q in
      (account || source, r)

  -- `RecordSuccess`
  unfoldable pub record_success : String → LoginProtector → LoginProtector
  record_success username p = record p { buckets = remove (account_key lib username) p.buckets }
