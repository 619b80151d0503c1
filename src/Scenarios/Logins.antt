-- ===== src/Scenarios/Logins.antt =====
-- The theorems on the protection of logins, at an account that fails too often.
use Prim.Native.Char.{Char, code}
use Prim.Native.String
use Prim.Native.String.append
use control_center_stable.Prelude.{
  eq_iff, sym, inl, inr, Bool-cases, false, ℕ, ap, arith, if◌then◌else◌, ◌==◌, ◌≡◌, ◌≢◌, refl,
  String, none, List, [], ◌∷◌, true, ok, ◌≤◌, ◌⊎◌,
}
use control_center_stable.Prelude.Map.{lookup, insert, size}
use control_center_stable.Prelude.Library.{concat, nul}
use control_center_stable.Identity.Login.{
  LoginLibrary, LoginProtectionPolicy, default_policy, validate_policy, new_login_protector,
  account_key, source_key, blocked,
}
use control_center_stable.Identity.Login.Bound.{LoginCall, fails, checks, run, tracked_keys_le}
use control_center_stable.Identity.Login.Guessing.{fail_all, all_before, guessing_blocked}
use control_center_stable.Identity.Login.Causes.{failed, blocked_cause}

abbrev login_lib : LoginLibrary
login_lib = record {
  trim_space = λ s. s;
  to_lower = λ s. s;
  parse_ip = λ s. none;
  sha256_hex = λ s. s;
}

abbrev strict : LoginProtectionPolicy
strict = record default_policy { account_failure_limit = 2 }

abbrev guesses : List LoginCall
guesses = fails "ann" "10.0.0.1" 100 ∷ checks "bob" "10.0.0.2" 110 ∷ fails "ann" "10.0.0.1" 120 ∷ []

strict_valid : validate_policy strict ≡ ok tt
unfolding validate_policy
strict_valid = refl

tracked_keys_le_example :
    size (run login_lib guesses (new_login_protector strict)).buckets ≤ strict.max_tracked_keys
tracked_keys_le_example = tracked_keys_le login_lib strict guesses strict_valid

-- The code of the first character tells the two kinds of keys apart.
abbrev first : String → ℕ
first String.[] = 0
first (String.◌∷◌ c s) = code c

first-append : (c : Char) (s t : String) → first (String.◌++◌ (String.◌∷◌ c s) t) ≡ code c
first-append c s t = ap first (append.cons c s t)

keys_apart : (v t : String) → account_key login_lib v ≢ source_key login_lib t
unfolding concat
keys_apart v t e =
    let a : first (account_key login_lib v) ≡ 97 =
      first-append "a" "ccount" (concat (nul ∷ v ∷ [])) in
    let s : first (source_key login_lib t) ≡ 115 =
      first-append "s" "ource" (concat (nul ∷ (if t == "" then "unknown" else t) ∷ [])) in
    omega (arith, a, s, ap first e)

ann_blocked :
    (blocked login_lib "ann" "10.0.0.3" 130 (run login_lib guesses (new_login_protector strict))).0
    ≡ true
unfolding blocked run lookup insert size concat
ann_blocked = refl

blocked_cause_example :
    (2 ≤ failed login_lib (account_key login_lib "ann") guesses)
    ⊎ (30 ≤ failed login_lib (source_key login_lib "10.0.0.3") guesses)
blocked_cause_example =
    blocked_cause login_lib strict guesses "ann" "10.0.0.3" 130 keys_apart ann_blocked

sources_apart : (t : String) → (source_key login_lib t == account_key login_lib "ann") ≡ false
sources_apart t = elim (Bool-cases (source_key login_lib t == account_key login_lib "ann")) [
  | inr q ↦ q
  | inl q ↦ absurd (
      keys_apart "ann" t
        (sym ((eq_iff (source_key login_lib t) (account_key login_lib "ann")).0 q)))
]

guessing_blocked_example :
    (fail_all login_lib "ann"
      (("10.0.0.1", 100) ∷ ("10.0.0.2", 120) ∷ [])
      (false, new_login_protector strict)).0
    ≡ true
unfolding lookup size all_before
guessing_blocked_example =
    guessing_blocked login_lib "ann" sources_apart "10.0.0.1" 100 (("10.0.0.2", 120) ∷ [])
      (new_login_protector strict) strict_valid refl refl refl (omega arith) refl
