-- ===== src/Identity/Login/Causes.antt =====
-- internal/identity/auth/login_protection.go blocks nobody without cause, whatever calls there were.
use control_center_stable.Prelude.{
  ℕ, ◌+◌, ◌≤◌, String, List, [], ◌∷◌, Bool, true, false, ◌==◌, ◌≡◌, ◌≢◌, inl, inr, ◌⊎◌, arith,
  Bool-cases, sym,
}
use control_center_stable.Prelude.Map.{lookup}
use control_center_stable.Prelude.Time.{Time}
use control_center_stable.Identity.Login.{
  LoginLibrary, LoginProtectionPolicy, LoginProtector, new_login_protector, blocked_locked,
  record_failure_locked, blocked, record_login_failure, record_success, account_key, source_key,
}
use control_center_stable.Identity.Login.Bound.{
  LoginCall, checks, fails, succeeds, step, run, step-policy,
}
use control_center_stable.Identity.Login.Lockout.{
  count_if, Justified, remove-Justified, record_failure_locked-Justified, blocked_locked-Justified,
  blocked_locked_cause,
}

-- How often a key was recorded as failed: by the account and by the source.
unfoldable pub failed : LoginLibrary → String → List LoginCall → ℕ
failed lib key [] = 0
failed lib key (fails u s now ∷ cs) =
    count_if (account_key lib u == key) (count_if (source_key lib s == key) (failed lib key cs))
failed lib key (checks u s now ∷ cs) = failed lib key cs
failed lib key (succeeds u ∷ cs) = failed lib key cs

count_if_sum : (a b : Bool) (n : ℕ) → count_if b (count_if a n) ≡ n + count_if a (count_if b 0)
count_if_sum true true n = omega arith
count_if_sum true false n = omega arith
count_if_sum false true n = omega arith
count_if_sum false false n = omega arith

count_if_tail : (a b : Bool) (n : ℕ) → count_if a (count_if b n) ≡ count_if a (count_if b 0) + n
count_if_tail true true n = omega arith
count_if_tail true false n = omega arith
count_if_tail false true n = omega arith
count_if_tail false false n = omega arith

module _ (limit : ℕ) (k : String) where
  -- What a call does to the count.
  step-Justified :
      (lib : LoginLibrary) (c : LoginCall) (n : ℕ) (p : LoginProtector)
      → ((u : String) → account_key lib u ≡ k → limit ≤ p.policy.account_failure_limit)
      → ((s : String) → source_key lib s ≡ k → limit ≤ p.policy.source_failure_limit)
      → Justified limit n k p.buckets
      → Justified limit (n + failed lib k (c ∷ [])) k (step lib c p).buckets
  unfolding step blocked record_login_failure record_success failed
  step-Justified lib (checks u s now) n p account source h =
      let q = (blocked_locked (account_key lib u) now p).1 in
      let e : n ≡ n + 0 = omega arith in
      rw (← e) (
        blocked_locked-Justified limit k (source_key lib s) now n q
          (blocked_locked-Justified limit k (account_key lib u) now n p h))
  step-Justified lib (fails u s now) n p account source h =
      let limit_u = p.policy.account_failure_limit in
      let q = (record_failure_locked (account_key lib u) limit_u now p).1 in
      let e : count_if (source_key lib s == k) (count_if (account_key lib u == k) n)
          ≡ n + count_if (account_key lib u == k) (count_if (source_key lib s == k) 0) =
        count_if_sum (account_key lib u == k) (source_key lib s == k) n in
      rw (← e) (
        record_failure_locked-Justified limit k (source_key lib s) p.policy.source_failure_limit now
          (count_if (account_key lib u == k) n) q (source s)
          (record_failure_locked-Justified limit k (account_key lib u) limit_u now n p (account u)
            h))
  step-Justified lib (succeeds u) n p account source h =
      let e : n ≡ n + 0 = omega arith in
      rw (← e) (remove-Justified limit k (account_key lib u) n p.buckets h)

  failed-cons :
      (lib : LoginLibrary) (c : LoginCall) (cs : List LoginCall)
      → failed lib k (c ∷ cs) ≡ failed lib k (c ∷ []) + failed lib k cs
  unfolding failed
  failed-cons lib (checks u s now) cs = omega arith
  failed-cons lib (succeeds u) cs = omega arith
  failed-cons lib (fails u s now) cs =
      count_if_tail (account_key lib u == k) (source_key lib s == k) (failed lib k cs)

  run-Justified :
      (lib : LoginLibrary) (cs : List LoginCall) (n : ℕ) (p : LoginProtector)
      → ((u : String) → account_key lib u ≡ k → limit ≤ p.policy.account_failure_limit)
      → ((s : String) → source_key lib s ≡ k → limit ≤ p.policy.source_failure_limit)
      → Justified limit n k p.buckets
      → Justified limit (n + failed lib k cs) k (run lib cs p).buckets
  unfolding run failed
  run-Justified lib [] n p account source h = let e : n ≡ n + 0 = omega arith in rw (← e) h
  run-Justified lib (c ∷ cs) n p account source h =
      let e : (n + failed lib k (c ∷ [])) + failed lib k cs ≡ n + failed lib k (c ∷ cs) =
        omega (arith, failed-cons lib c cs) in
      rw (← e) (
        run-Justified lib cs (n + failed lib k (c ∷ [])) (step lib c p)
          (rw (step-policy lib c p) account) (rw (step-policy lib c p) source)
          (step-Justified lib c n p account source h))

-- Where no account has the key of a source, an account or a source that is blocked, after any calls
-- on a new protector, was recorded as failed as often as its limit says.
pub blocked_cause :
    (lib : LoginLibrary) (policy : LoginProtectionPolicy) (cs : List LoginCall) (u s : String)
    (now : Time)
    → ((v t : String) → account_key lib v ≢ source_key lib t)
    → (blocked lib u s now (run lib cs (new_login_protector policy))).0 ≡ true
    → (policy.account_failure_limit ≤ failed lib (account_key lib u) cs)
      ⊎ (policy.source_failure_limit ≤ failed lib (source_key lib s) cs)
unfolding blocked lookup
blocked_cause lib policy cs u s now apart h =
    let p = run lib cs (new_login_protector policy) in
    let q = (blocked_locked (account_key lib u) now p).1 in
    let account =
      run-Justified policy.account_failure_limit (account_key lib u) lib cs 0
        (new_login_protector policy) (λ v e. omega arith) (λ t e. absurd (apart u t (sym e)))
        (λ b l. ground arith) in
    let source =
      run-Justified policy.source_failure_limit (source_key lib s) lib cs 0
        (new_login_protector policy) (λ v e. absurd (apart v s e)) (λ t e. omega arith)
        (λ b l. ground arith) in
    elim (Bool-cases (blocked_locked (account_key lib u) now p).0) [
      | inl held ↦ inl (
          omega (
            arith,
            blocked_locked_cause policy.account_failure_limit (account_key lib u) now
                (0 + failed lib (account_key lib u) cs) p account held,
          ))
      | inr free ↦ inr (
          omega (
            arith,
            blocked_locked_cause policy.source_failure_limit (source_key lib s) now
                (0 + failed lib (source_key lib s) cs) q
                (blocked_locked-Justified policy.source_failure_limit (source_key lib s)
                  (account_key lib u) now (0 + failed lib (source_key lib s) cs) p source)
                (rw free at h),
          ))
    ]
