-- ===== src/Orchestration/Job/Delay.antt =====
-- `retryDelay` of internal/orchestration/job/memory.go: the backoff between attempts, on int64
-- nanoseconds.
use Prim.Native.Nat.{min}
use native.Mathlib.Nat.{pow-suc}
use native.Mathlib.Decide.{dec_lt}
use control_center_stable.Prelude.{
  ℕ, ap, zero, suc, ◌+◌, ◌-◌, ◌*◌, ◌^◌, ◌≤◌, ◌<◌, ◌≡◌, ◌≢◌, arith, if◌then◌else◌,
}
use control_center_stable.Prelude.Time.{Duration, pos, negsuc, exceeds, double}
use control_center_stable.Orchestration.Job.Steps.{double_delay, retry_delay}

-- 2 ^ 62, up to which the loop doubles
abbrev pub doubling_limit : ℕ
doubling_limit = 4611686018427387904

abbrev capped : ℕ → Duration → Duration
capped limit delay = if exceeds delay (pos limit) then pos limit else delay

twice_pow : (d k : ℕ) → d * 2 * 2 ^ k ≡ d * 2 ^ suc k
twice_pow d k = rw (pow-suc 2 k) (grind arith)

le-pow : (d n : ℕ) → d ≤ d * 2 ^ n
le-pow d zero = omega arith
le-pow d (suc n) = omega (arith, twice_pow d n, le-pow (d * 2) n)

double_pos : (d : ℕ) → d < doubling_limit → double (pos d) ≡ pos (d * 2)
double_pos d h = ground arith

double_delay_stops : (n d : ℕ) → doubling_limit < d → double_delay (suc n) (pos d) ≡ pos d
unfolding double_delay
double_delay_stops n d h = ground arith

double_delay_goes :
    (n d : ℕ) → d < doubling_limit → double_delay (suc n) (pos d) ≡ double_delay n (pos (d * 2))
unfolding double_delay
double_delay_goes n d h = ground arith

capped-double_delay :
    (n d limit : ℕ)
    → 0 < limit
    → limit ≤ doubling_limit
    → 0 < d
    → ((k : ℕ) → d * 2 ^ k ≢ doubling_limit)
    → capped limit (double_delay n (pos d)) ≡ pos (min limit (d * 2 ^ n))
unfolding double_delay
capped-double_delay zero d limit p l h ne = ground arith
capped-double_delay (suc n) d limit p l h ne = elim (dec_lt doubling_limit d) [
  | yes big ↦ rw (double_delay_stops n d big) (ground (arith, le-pow d (suc n)))
  | no small ↦
      let less : d < doubling_limit = ground (arith, ne 0) in
      rw (double_delay_goes n d less, ← twice_pow d n)
        (capped-double_delay n (d * 2) limit p l (omega arith)
          (λ k e. ne (suc k) (omega (arith, twice_pow d k, e))))
]

-- With a positive base delay and a positive maximal delay of at most 2 ^ 62 ns, and a base delay of
-- which no doubling is exactly 2 ^ 62 ns, the delay before the next attempt is the base delay
-- doubled once for each attempt after the first, and at most the maximal delay. No doubling wraps.
pub retry_delay-min :
    (attempt base limit : ℕ)
    → 0 < base
    → 0 < limit
    → limit ≤ doubling_limit
    → ((k : ℕ) → base * 2 ^ k ≢ doubling_limit)
    → retry_delay attempt (record { base_delay = pos base; max_delay = pos limit })
      ≡ pos (min limit (base * 2 ^ (attempt - 1)))
unfolding retry_delay
retry_delay-min attempt base limit h p l ne =
    ground (arith, capped-double_delay (attempt - 1) base limit p l h ne)

positive_of_mul : (d n : ℕ) → d * n ≡ doubling_limit → 0 < d
positive_of_mul zero n h = omega arith
positive_of_mul (suc d) n h = omega arith

double_delay_overflow :
    (i d : ℕ)
    → d * 2 ^ i ≡ doubling_limit
    → double_delay (suc i) (pos d) ≡ negsuc 9223372036854775807
unfolding double_delay
double_delay_overflow zero d h = let e : d ≡ doubling_limit = omega (arith, h) in rw e
double_delay_overflow (suc i) d h =
    let positive : 0 < d = positive_of_mul d (2 ^ suc i) h in
    let less : d < doubling_limit = omega (arith, h, twice_pow d i, le-pow (d * 2) i) in
    rw (double_delay_goes (suc i) d less)
      (double_delay_overflow i (d * 2) (omega (arith, h, twice_pow d i)))

less_one : (i : ℕ) → i + 2 - 1 ≡ suc i
less_one i = omega arith

-- Where the base delay reaches exactly 2 ^ 62 ns after i doublings, the next doubling wraps: the
-- delay after attempt i + 2 is -2 ^ 63 ns, whatever the maximal delay, and the job is due at once.
pub retry_delay_overflow :
    (i base : ℕ) (limit : Duration)
    → base * 2 ^ i ≡ doubling_limit
    → retry_delay (i + 2) (record { base_delay = pos base; max_delay = limit })
      ≡ negsuc 9223372036854775807
unfolding retry_delay
retry_delay_overflow i base limit h = ground (
  arith,
  positive_of_mul base (2 ^ i) h,
  double_delay_overflow i base h,
  ap (λ (n : ℕ). double_delay n (pos base)) (less_one i),
)
