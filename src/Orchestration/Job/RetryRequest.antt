-- ===== src/Orchestration/Job/RetryRequest.antt =====
-- internal/orchestration/job/manual_retry.go: the request of a manual retry, its checks and its
-- fingerprint.
use control_center_stable.Prelude.{
  ℕ, String, Option, none, some, List, [], ◌∷◌, Bool, true, false, not, ◌&&◌, ◌||◌, ltb, nat_eq,
  ◌==◌, if◌then◌else◌, Result, ok, err,
}
use control_center_stable.Prelude.Time.{Time, is_zero}
use control_center_stable.Prelude.Library.{Library, byte_length, codes, concat, nul}
use control_center_stable.Orchestration.Job.Model.{Error, message}

pub record ManualRetryRequest : Type 0 where
  pub source_job_id : String
  pub expected_source_version : ℕ
  pub retry_job_id : String
  pub retry_idempotency_key : String
  pub reviewed_admission_id : String
  pub revalidation_admission_id : String
  pub revision_id : String
  pub revision_digest : String
  pub policy_id : String
  pub policy_digest : String
  pub retry_history_digest : String
  pub approval_evidence_digest : String
  pub requested_at : Time

pub record ManualRetryLineage : Type 0 where
  pub root_job_id : String
  pub source_job_id : String
  pub source_job_version : ℕ
  pub retry_job_id : String
  pub retry_idempotency_key : String
  pub reviewed_admission_id : String
  pub revalidation_admission_id : String
  pub revision_id : String
  pub revision_digest : String
  pub policy_id : String
  pub policy_digest : String
  pub retry_history_digest : String
  pub approval_evidence_digest : String
  pub requested_at : Time

-- `validateManualRetryIdentifier`
unfoldable pub not_identifier : Library → String → Bool
unfolding byte_length
not_identifier lib value =
    lib.trim_space value == "" || not (lib.trim_space value == value) || ltb 255 (byte_length value)

-- `sha256:` and 64 digits.
unfoldable pub all_hex : List ℕ → Bool
all_hex [] = true
all_hex (c ∷ cs) = not ((ltb c b'0' || ltb b'9' c) && (ltb c b'a' || ltb b'f' c)) && all_hex cs

unfoldable pub after_prefix : List ℕ → List ℕ → Option (List ℕ)
after_prefix [] cs = some cs
after_prefix (p ∷ ps) [] = none
after_prefix (p ∷ ps) (c ∷ cs) = let rest = after_prefix ps cs in if nat_eq p c then rest else none

-- `validManualRetryDigest`
unfoldable pub valid_digest : String → Bool
unfolding all_hex after_prefix byte_length
valid_digest value =
    nat_eq (byte_length value) 71
    && elim (after_prefix (codes "sha256:") (codes value)) [ none ↦ false | some cs ↦ all_hex cs ]

abbrev pub reject : Bool → String → Result Error (Unit {0}) → Result Error (Unit {0})
reject true text rest = err (message text)
reject false text rest = rest

unfoldable pub validate_retry_digests : ManualRetryRequest → Result Error (Unit {0})
unfolding valid_digest
validate_retry_digests q =
    reject (not (valid_digest q.reviewed_admission_id))
      "canonical reviewed admission id is required"
      (reject (not (valid_digest q.revalidation_admission_id))
        "canonical revalidation admission id is required"
        (reject (not (valid_digest q.revision_digest)) "canonical revision digest is required" (
          reject (not (valid_digest q.policy_digest)) "canonical policy digest is required" (
            reject (not (valid_digest q.retry_history_digest))
              "canonical retry history digest is required"
              (reject
                (not (q.approval_evidence_digest == "")
                  && not (valid_digest q.approval_evidence_digest))
                "canonical approval evidence digest is required"
                (reject (is_zero q.requested_at) "manual retry request time is required"
                  (ok tt)))))))

-- `ValidateManualRetryRequest`
unfoldable pub validate_manual_retry_request :
    Library → ManualRetryRequest → Result Error (Unit {0})
unfolding not_identifier validate_retry_digests
validate_manual_retry_request lib q =
    reject (not_identifier lib q.source_job_id) "canonical source job id is required" (
      reject (not_identifier lib q.retry_job_id) "canonical retry job id is required" (
        reject (not_identifier lib q.retry_idempotency_key)
          "canonical retry idempotency key is required"
          (reject (not_identifier lib q.revision_id) "canonical revision id is required" (
            reject (not_identifier lib q.policy_id) "canonical policy id is required" (
              reject (nat_eq q.expected_source_version 0) "expected source job version is required"
                (reject (q.source_job_id == q.retry_job_id) "retry job must have a fresh job id"
                  (validate_retry_digests q)))))))

-- Each value and a zero byte, as the hash is fed.
unfoldable pub terminated : List String → List String
terminated [] = []
terminated (value ∷ values) = value ∷ nul ∷ terminated values

unfoldable pub request_digest : Library → ManualRetryRequest → String
unfolding terminated
request_digest lib q = lib.sha256_hex (
    concat (
      terminated (
        q.source_job_id
        ∷ lib.decimal q.expected_source_version
        ∷ q.retry_job_id
        ∷ q.retry_idempotency_key
        ∷ q.reviewed_admission_id
        ∷ q.revision_id
        ∷ q.revision_digest
        ∷ q.policy_id
        ∷ q.policy_digest
        ∷ q.retry_history_digest
        ∷ q.approval_evidence_digest
        ∷ [])))

-- `ManualRetryRequestFingerprint`
unfoldable pub request_fingerprint : Library → ManualRetryRequest → Result Error String
request_fingerprint lib q = elim (validate_manual_retry_request lib q) [
  | ok u ↦ ok (request_digest lib q)
  | err e ↦ err e
]
