-- ===== src/Nodes/Metadata.antt =====
-- internal/corecontracts/metadata.go: the envelope of a distributed object, its optimistic
-- preconditions and its successors.
use control_center_stable.Prelude.{
  ℕ, suc, String, List, [], ◌∷◌, Option, none, some, Bool, true, false, not, ◌&&◌, ◌||◌, ltb,
  nat_eq, ◌==◌, if◌then◌else◌, Result, ok, err,
}
use control_center_stable.Prelude.Fallible.{◌>>=◌, ◌>>◌}
use control_center_stable.Prelude.Time.{Time, is_zero, before}
use control_center_stable.Prelude.Library.{byte_length, codes}
use control_center_stable.NetworkPolicy.ChangeEvents.{is_alphanumeric}

-- `strings.TrimSpace`, `unicode.IsControl` and `unicode.IsSpace`.
pub record TextLibrary : Type 0 where
  pub trim_space : String → String
  pub is_control : ℕ → Bool
  pub is_space : ℕ → Bool

pub data ContractError : Type 0 where
  invalid_metadata invalid_precondition precondition_failed invalid_transition :
      String → ContractError
  invalid_lifecycle invalid_evidence : String → ContractError
  precondition_required : ContractError

pub record ObjectMetadata : Type 0 where
  pub object_id : String
  pub scope_id : String
  pub owner_scope : String
  pub generation : ℕ
  pub resource_version : String
  pub created_at : Time
  pub updated_at : Time

pub record ObjectPrecondition : Type 0 where
  pub object_id : String
  pub resource_version : String
  pub generation : Option ℕ

abbrev pub Check : Type 0
Check = Result ContractError (Unit {0})

-- `if b { return e }`
abbrev pub refuse_if : Bool → ContractError → Check
refuse_if true e = err e
refuse_if false e = ok tt

-- `fmt.Errorf("%w: …: %v", e, err)`: the error that is wrapped is only text.
abbrev pub told_as : ContractError → Check → Check
told_as e (ok done) = ok done
told_as e (err x) = err e

abbrev is_inner : ℕ → Bool
is_inner c = is_alphanumeric c || nat_eq c b'.' || nat_eq c b'_' || nat_eq c b':' || nat_eq c b'-'

unfoldable pub pattern_tail : List ℕ → Bool
pattern_tail [] = true
pattern_tail (c ∷ []) = is_alphanumeric c
pattern_tail (c ∷ d ∷ cs) = is_inner c && pattern_tail (d ∷ cs)

-- `identifierPattern.MatchString`, of a text that is not too long
unfoldable pub matches_pattern : List ℕ → Bool
unfolding pattern_tail
matches_pattern [] = false
matches_pattern (c ∷ cs) = is_alphanumeric c && pattern_tail cs

unfoldable pub any_code : (ℕ → Bool) → List ℕ → Bool
any_code bad [] = false
any_code bad (c ∷ cs) = bad c || any_code bad cs

module _ (lib : TextLibrary) where
  -- `validateIdentifier`; `e` makes the error of the caller of its text
  unfoldable pub validate_identifier : (String → ContractError) → String → String → Check
  unfolding byte_length matches_pattern
  validate_identifier e field value = do
    refuse_if (value == "" || not (lib.trim_space value == value)) (e field)
    refuse_if (ltb 255 (byte_length value)) (e field)
    refuse_if (not (matches_pattern (codes value))) (e field)

  -- `validateOpaqueVersion`
  unfoldable pub validate_opaque_version : (String → ContractError) → String → Check
  unfolding byte_length any_code
  validate_opaque_version e value = do
    refuse_if (value == "" || not (lib.trim_space value == value))
        (e "resource_version is required")
    refuse_if (ltb 255 (byte_length value)) (e "resource_version exceeds 255 bytes")
    refuse_if (any_code (λ c. lib.is_control c || lib.is_space c) (codes value))
        (e "resource_version contains whitespace or control characters")

  -- `ObjectMetadata.Validate`
  unfoldable pub validate_metadata : ObjectMetadata → Check
  unfolding validate_identifier validate_opaque_version
  validate_metadata m = do
    validate_identifier invalid_metadata "object_id" m.object_id
    validate_identifier invalid_metadata "scope_id" m.scope_id
    validate_identifier invalid_metadata "owner_scope" m.owner_scope
    refuse_if (nat_eq m.generation 0) (invalid_metadata "generation must be positive")
    validate_opaque_version invalid_metadata m.resource_version
    refuse_if (is_zero m.created_at || is_zero m.updated_at)
        (invalid_metadata "created_at and updated_at are required")
    refuse_if (before m.updated_at m.created_at) (invalid_metadata "updated_at precedes created_at")

  -- `ObjectPrecondition.ValidateAgainst`
  unfoldable pub validate_against : ObjectPrecondition → ObjectMetadata → Check
  unfolding validate_identifier validate_opaque_version validate_metadata
  validate_against p current = do
    refuse_if (p.object_id == "" || p.resource_version == "") precondition_required
    validate_identifier invalid_precondition "object_id" p.object_id
    validate_opaque_version invalid_precondition p.resource_version
    refuse_if (elim p.generation [ none ↦ false | some g ↦ nat_eq g 0 ])
        (invalid_precondition "generation must be positive when supplied")
    validate_metadata current
    refuse_if (not (p.object_id == current.object_id)) (precondition_failed "object")
    refuse_if (not (p.resource_version == current.resource_version))
        (precondition_failed "resource version")
    refuse_if (elim p.generation [ none ↦ false | some g ↦ not (nat_eq g current.generation) ])
        (precondition_failed "generation")

-- The generation of the successor; `math.MaxUint64` has none.
abbrev pub want_generation : Bool → ObjectMetadata → Result ContractError ℕ
want_generation desired_changed current =
    if not desired_changed
    then ok current.generation
    else if nat_eq current.generation 18446744073709551615
    then err (invalid_transition "generation overflow")
    else ok (suc current.generation)

-- `ValidateSuccessor`
unfoldable pub validate_successor : TextLibrary → ObjectMetadata → ObjectMetadata → Bool → Check
unfolding validate_metadata
validate_successor lib current next desired_changed = do
  told_as (invalid_transition "current") (validate_metadata lib current)
  told_as (invalid_transition "next") (validate_metadata lib next)
  refuse_if (not (next.object_id == current.object_id))
      (invalid_transition "object_id is immutable")
  refuse_if (not (nat_eq next.created_at current.created_at))
      (invalid_transition "created_at is immutable")
  refuse_if (before next.updated_at current.updated_at)
      (invalid_transition "updated_at moved backwards")
  refuse_if (next.resource_version == current.resource_version)
      (invalid_transition "resource_version must change on every stored update")
  refuse_if
      (not desired_changed
        && (not (next.scope_id == current.scope_id)
            || not (next.owner_scope == current.owner_scope)))
      (invalid_transition "scope ownership changes require a desired generation change")
  want ← want_generation desired_changed current
  refuse_if (not (nat_eq next.generation want)) (invalid_transition "generation")
