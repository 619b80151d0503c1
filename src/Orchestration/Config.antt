-- ===== src/Orchestration/Config.antt =====
-- internal/orchestration/config/revision.go: immutable configuration revisions.
use control_center_stable.Prelude.{
  ℕ, String, [], ◌∷◌, not, ◌&&◌, nat_eq, ◌==◌, if◌then◌else◌, Result, ok, err,
}
use control_center_stable.Prelude.Time.{Time, is_zero}
use control_center_stable.Prelude.Library.{Library, concat}

pub data RevisionError : Type 0 where
  empty_content precondition_required precondition_failed : RevisionError
  message : String → RevisionError

pub record Revision : Type 0 where
  pub id : String
  pub sequence : ℕ
  pub created_at : Time
  pub content : String
  pub digest : String

-- `NewRevision`; `canonical` is `canonicalContent`, which is what the JSON decoder and encoder of
-- the standard library make of the content.
unfoldable pub new_revision :
    Library → (String → String) → String → ℕ → Time → String → Result RevisionError Revision
new_revision lib canonical id sequence created_at content =
    if id == ""
    then err (message "revision id is required")
    else if nat_eq sequence 0
    then err (message "revision sequence must be positive")
    else if content == ""
    then err empty_content
    else if is_zero created_at
    then err (message "revision creation time is required")
    else ok (record {
      id = id;
      sequence = sequence;
      created_at = created_at;
      content = canonical content;
      digest = concat ("sha256:" ∷ lib.sha256_hex (canonical content) ∷ []);
    })

pub record Precondition : Type 0 where
  pub expected_revision_id : String
  pub expected_digest : String

-- `ValidateAgainst`
unfoldable pub validate_against : Precondition → Revision → Result RevisionError (Unit {0})
validate_against p current =
    if p.expected_revision_id == ""
    then err precondition_required
    else if not (p.expected_revision_id == current.id)
    then err precondition_failed
    else if not (p.expected_digest == "") && not (p.expected_digest == current.digest)
    then err precondition_failed
    else ok tt
