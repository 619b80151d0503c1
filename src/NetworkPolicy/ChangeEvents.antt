-- ===== src/NetworkPolicy/ChangeEvents.antt =====
-- The events of internal/networkpolicy/change_machine.go and their checks, with the identifiers of
-- change_plan.go.
use control_center_stable.Prelude.{
  ℕ, String, List, [], ◌∷◌, Bool, true, false, not, ◌&&◌, ◌||◌, ltb, leb, nat_eq, ◌==◌,
  if◌then◌else◌, length, Result, ok, err,
}
use control_center_stable.Prelude.Time.{Time, is_zero}
use control_center_stable.Prelude.Library.{codes}

-- A Go string type: a value that is no constant is `unknown`.
pub data ChangeEventType : Type 0 where
  snapshot_captured snapshot_failed preflight_passed preflight_failed : ChangeEventType
  temporary_applied probe_passed probe_failed phase_timed_out : ChangeEventType
  rollback_succeeded rollback_failed : ChangeEventType
  unknown : String → ChangeEventType

pub record ChangeEvent : Type 0 where
  pub id : String
  pub kind : ChangeEventType
  pub snapshot_id : String
  pub probe_id : String
  pub reason_code : String
  pub at : Time

pub data ChangeError : Type 0 where
  invalid_change_transition change_version_conflict event_idempotency_conflict : ChangeError
  invalid_change_plan : ChangeError
  message : String → ChangeError

abbrev pub is_alphanumeric : ℕ → Bool
is_alphanumeric c = leb b'A' c && leb c b'Z' || leb b'a' c && leb c b'z' || leb b'0' c && leb c b'9'

abbrev pub is_inner : ℕ → Bool
is_inner c = is_alphanumeric c || nat_eq c b'.' || nat_eq c b'_' || nat_eq c b'-'

-- The rest of an identifier: inner characters, and the last one is alphanumeric.
unfoldable pub identifier_tail : List ℕ → Bool
identifier_tail [] = true
identifier_tail (c ∷ []) = is_alphanumeric c
identifier_tail (c ∷ d ∷ cs) = is_inner c && identifier_tail (d ∷ cs)

-- `identifierPattern.MatchString`
unfoldable pub matches_identifier : List ℕ → Bool
unfolding identifier_tail
matches_identifier [] = false
matches_identifier (c ∷ cs) = is_alphanumeric c && identifier_tail cs && ltb (length cs) 128

-- What the machine is given of the standard library: `strings.TrimSpace`, and the digest of an
-- event, which is the SHA-256 of its JSON.
pub record EventLibrary : Type 0 where
  pub trim_space : String → String
  pub event_digest : ChangeEvent → String

-- `normalizeIdentifier`, whether it is an error
unfoldable pub not_identifier : EventLibrary → String → Bool
unfolding matches_identifier
not_identifier lib value = not (matches_identifier (codes (lib.trim_space value)))

abbrev pub is_probe_event : ChangeEventType → Bool
is_probe_event probe_passed = true
is_probe_event probe_failed = true
is_probe_event _ = false

abbrev pub is_capture : ChangeEventType → Bool
is_capture snapshot_captured = true
is_capture _ = false

abbrev pub is_failure : ChangeEventType → Bool
is_failure snapshot_failed = true
is_failure preflight_failed = true
is_failure probe_failed = true
is_failure phase_timed_out = true
is_failure rollback_failed = true
is_failure _ = false

abbrev pub is_unknown : ChangeEventType → Bool
is_unknown (unknown s) = true
is_unknown _ = false

abbrev pub is_timeout : ChangeEventType → Bool
is_timeout phase_timed_out = true
is_timeout _ = false

abbrev pub bool_eq : Bool → Bool → Bool
bool_eq true b = b
bool_eq false b = not b

-- `validateAndDigestEvent`
unfoldable pub validate_and_digest_event : EventLibrary → ChangeEvent → Result ChangeError String
unfolding not_identifier
validate_and_digest_event lib e =
    if not_identifier lib e.id
    then err invalid_change_plan
    else if is_zero e.at
    then err (message "network change event time is required")
    else if not (e.reason_code == "") && not_identifier lib e.reason_code
    then err invalid_change_plan
    else if not (e.probe_id == "") && not_identifier lib e.probe_id
    then err invalid_change_plan
    else if not (bool_eq (is_probe_event e.kind) (not (e.probe_id == "")))
    then err (message "probe events require probe_id and other events forbid it")
    else if is_capture e.kind && not_identifier lib e.snapshot_id
    then err invalid_change_plan
    else if not (is_capture e.kind) && not (e.snapshot_id == "")
    then err (message "only snapshot_captured events may contain snapshot_id")
    else if not (e.reason_code == "") && not (is_failure e.kind)
    then err (message "successful network change events must not contain reason_code")
    else if is_unknown e.kind
    then err (message "unknown network change event")
    else ok (lib.event_digest e)

-- `eventDetail`
abbrev pub event_detail : ChangeEvent → String → String
event_detail e fallback = if not (e.reason_code == "") then e.reason_code else fallback
