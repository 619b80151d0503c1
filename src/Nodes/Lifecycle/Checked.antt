-- ===== src/Nodes/Lifecycle/Checked.antt =====
-- What a transition has passed that internal/nodelifecycle/lifecycle.go lets pass.
use control_center_stable.Prelude.Time.{after, before}
use control_center_stable.Prelude.{
  nat_eq_iff, Result, ◌||◌, ◌&&◌, ℕ, String, List, some, Bool, true, false, not, nat_eq, ◌==◌, ok,
  err, ◌≡◌, ◌<◌, refl, inl, inr, Bool-cases, Option-cases, arith, eq_iff,
}
use control_center_stable.Prelude.Fallible.{◌>>=◌, ◌>>◌}
use control_center_stable.Nodes.Metadata.{
  TextLibrary, ObjectMetadata, validate_metadata, validate_against, validate_successor,
  want_generation,
}
use control_center_stable.Nodes.Lifecycle.{
  invalid_lifecycle, state_text, told_as, type_valid, validate_initial, refuse_if,
  invalid_transition, state_valid, ContractError, Check, [], NodeLifecycle, TransitionRequest,
  TransitionRule, transition_rule_for, validate_transition, validate_rule, validate,
  validate_evidence, is_desired, same_type, all_passed, collect_checks,
}

-- A sequence of checks that succeeds is a check that succeeds and the checks after it.
first_ok : (r : Check) {s : Check} → (r >> s) ≡ ok tt → (r ≡ ok tt) × (s ≡ ok tt)
first_ok (ok done) h = (refl, h)
first_ok (err e) h = ground arith

not_refused :
    (b : Bool) (e : ContractError) {s : Check}
    → (refuse_if b e >> s) ≡ ok tt
    → (b ≡ false) × (s ≡ ok tt)
not_refused true e h = ground arith
not_refused false e h = (refl, h)

unnegated : (b : Bool) → not b ≡ false → b ≡ true
unnegated true h = refl
unnegated false h = ground arith

advanced : (a b : ℕ) → not (after b a) ≡ false → a < b
advanced a b h = ground arith

wanted_found :
    (r : Result ContractError ℕ) (n : ℕ)
    → (r >>= λ want. refuse_if (not (nat_eq n want)) (invalid_transition "generation")) ≡ ok tt
    → r ≡ ok n
wanted_found (err e) n h = ground arith
wanted_found (ok want) n h = ground (arith, nat_eq_iff n want)

module _ (lib : TextLibrary) where
  pub transition_rule_found :
      (current next : NodeLifecycle) (request : TransitionRequest)
      → validate_transition lib current next request ≡ ok tt
      → (rule : TransitionRule) × (transition_rule_for current.state next.state ≡ some rule)
        × (validate_rule lib current next request rule ≡ ok tt)
  unfolding validate_transition
  transition_rule_found current next request h =
      let (a, h1) = first_ok (validate lib current) h in
      let (b, h2) = first_ok (validate lib next) h1 in
      let (c, h3) = not_refused (not (state_valid request.target)) _ h2 in
      let (d, h4) = not_refused (not (type_valid request.kind)) _ h3 in
      let (e, h5) = not_refused (not (state_text request.target == state_text next.state)) _ h4 in
      let (f, h6) = not_refused (not (request.reason == next.reason)) _ h5 in
      let (g, h7) = first_ok (validate_against lib request.precondition current.metadata) h6 in
      elim (Option-cases (transition_rule_for current.state next.state)) [
        | inl q ↦ ground arith
        | inr (rule, q) ↦ (rule, q, ground arith)
      ]

  pub rule_checked :
      (current next : NodeLifecycle) (request : TransitionRequest) (rule : TransitionRule)
      → validate_rule lib current next request rule ≡ ok tt
      → (same_type request.kind rule.type_of ≡ true)
        × (current.state_changed_at < next.state_changed_at)
        × (validate_evidence request.evidence rule.required_checks ≡ ok tt)
        × (validate_successor lib current.metadata next.metadata (is_desired request.kind) ≡ ok tt)
  unfolding validate_rule
  rule_checked current next request rule h =
      let (a, h1) = not_refused (not (same_type request.kind rule.type_of)) _ h in
      let (b, h2) =
        not_refused
          (not (current.metadata.scope_id == next.metadata.scope_id)
            || not (current.metadata.owner_scope == next.metadata.owner_scope))
          _ h1 in
      let (c, h3) =
        not_refused (not (nat_eq next.state_changed_at next.metadata.updated_at)) _ h2 in
      let (d, h4) = not_refused (not (after next.state_changed_at current.state_changed_at)) _ h3 in
      let (e, h5) = first_ok (validate_evidence request.evidence rule.required_checks) h4 in
      (
        unnegated (same_type request.kind rule.type_of) a,
        advanced current.state_changed_at next.state_changed_at d,
        e,
        h5,
      )

  pub successor_checked :
      (current next : ObjectMetadata) (desired_changed : Bool)
      → validate_successor lib current next desired_changed ≡ ok tt
      → (next.object_id ≡ current.object_id)
        × (next.created_at ≡ current.created_at)
        × (want_generation desired_changed current ≡ ok next.generation)
  unfolding validate_successor
  successor_checked current next desired_changed h =
      let (a, h1) =
        first_ok (told_as (invalid_transition "current") (validate_metadata lib current)) h in
      let (b, h2) =
        first_ok (told_as (invalid_transition "next") (validate_metadata lib next)) h1 in
      let (c, h3) = not_refused (not (next.object_id == current.object_id)) _ h2 in
      let (d, h4) = not_refused (not (nat_eq next.created_at current.created_at)) _ h3 in
      let (e, h5) = not_refused (before next.updated_at current.updated_at) _ h4 in
      let (f, h6) = not_refused (next.resource_version == current.resource_version) _ h5 in
      let (g, h7) =
        not_refused
          (not desired_changed
            && (not (next.scope_id == current.scope_id)
                || not (next.owner_scope == current.owner_scope)))
          _ h6 in
      (
        (eq_iff next.object_id current.object_id).0
            (unnegated (next.object_id == current.object_id) c),
        (nat_eq_iff next.created_at current.created_at).0
            (unnegated (nat_eq next.created_at current.created_at) d),
        wanted_found (want_generation desired_changed current) next.generation h7,
      )

-- The checks that a rule requires are among the evidence.
pub evidence_checked :
    (evidence required : List String)
    → validate_evidence evidence required ≡ ok tt
    → all_passed required evidence ≡ true
unfolding validate_evidence
evidence_checked evidence required h =
    let (a, h1) = first_ok (collect_checks evidence []) h in
    let q : all_passed required evidence ≡ true = elim (Bool-cases (all_passed required evidence)) [
      | inl p ↦ p
      | inr p ↦ ground arith
    ] in
    q

-- A new object is discovered, at its first generation.
pub initial_checked :
    (lib : TextLibrary) (n : NodeLifecycle)
    → validate_initial lib n ≡ ok tt
    → (state_text n.state ≡ "discovered")
      × (n.metadata.generation ≡ 1)
      × (state_valid n.state ≡ true)
unfolding validate_initial validate
initial_checked lib n h =
    let (a, h1) = first_ok (validate lib n) h in
    let (b, h2) = not_refused (not (state_text n.state == "discovered")) _ h1 in
    let (c, h3) = not_refused (not (nat_eq n.metadata.generation 1)) _ h2 in
    let (d, k1) =
      first_ok (told_as (invalid_lifecycle "metadata") (validate_metadata lib n.metadata)) a in
    let (e, k2) = not_refused (not (state_valid n.state)) _ k1 in
    (
      (eq_iff (state_text n.state) "discovered").0
          (unnegated (state_text n.state == "discovered") b),
      (nat_eq_iff n.metadata.generation 1).0 (unnegated (nat_eq n.metadata.generation 1) c),
      unnegated (state_valid n.state) e,
    )
