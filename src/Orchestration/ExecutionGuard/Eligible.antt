-- ===== src/Orchestration/ExecutionGuard/Eligible.antt =====
-- When `Evaluate` of internal/orchestration/executionguard/preflight.go finds a change eligible.
use control_center_stable.Prelude.{
  ap, sym, ◌∙◌, ◌≤◌, ◌<◌, String, ◌≡◌, refl, Option, none, some, Bool, true, false, arith, eq_iff,
  Result, ok, err, ◌↔◌,
}
use control_center_stable.Prelude.Time.{Time}
use control_center_stable.Prelude.Library.{Library}
use control_center_stable.Orchestration.Policy.{allow, check_approvals}
use control_center_stable.Orchestration.Change.{approved, is_ok}
use control_center_stable.Orchestration.ExecutionGuard.{
  Input, Admission, MaintenanceWindow, evaluate, check_input, admission_of, blockers_of, is_empty,
  then_check,
}

-- The maintenance window is open at a time, or none is given and none is required.
abbrev pub IsOpen : Time → Bool → Option MaintenanceWindow → Type 0
IsOpen now required none = required ≡ false
IsOpen now required (some w) = (w.starts_at ≤ now) × (now < w.ends_at)

-- The change is approved and allowed, is bound to the exact revision, which is the current one, has
-- its approvals, and its maintenance window is open.
pub record IsAdmissible (lib : Library) (q : Input) : Type 0 where
  pub is_in_state : q.change.state ≡ approved
  pub is_allowed : q.change.decision.effect ≡ allow
  pub bound : q.change.revision_id ≡ q.revision.id
  pub current : q.current_revision_id ≡ q.change.revision_id
  pub vouched :
      check_approvals lib q.change.requester q.change.decision.requirement q.change.approvals
      ≡ ok tt
  pub open_window : IsOpen q.now q.require_maintenance_window q.maintenance_window

module _ (lib : Library) (q : Input) where
  is_ok_iff : (r : Result String (Unit {0})) → (is_ok r ≡ true) ↔ (r ≡ ok tt)
  is_ok_iff (ok u) = (λ h. refl, λ h. refl)
  is_ok_iff (err e) = (λ h. cc, λ h. cc)

  no_blockers : is_empty (blockers_of lib q) ≡ true → IsAdmissible lib q
  no_blockers h = ground (
    arith,
    eq_iff q.change.revision_id q.revision.id,
    eq_iff q.current_revision_id q.change.revision_id,
    is_ok_iff
        (check_approvals lib q.change.requester q.change.decision.requirement q.change.approvals),
  )

  admissible_unblocked : IsAdmissible lib q → is_empty (blockers_of lib q) ≡ true
  admissible_unblocked h = ground (
    arith,
    eq_iff q.change.revision_id q.revision.id,
    eq_iff q.current_revision_id q.change.revision_id,
    is_ok_iff
        (check_approvals lib q.change.requester q.change.decision.requirement q.change.approvals),
  )

then_check_ok :
    {A : Type 0} {a : A} (r : Result String (Unit {0})) (rest : Result String A)
    → then_check r rest ≡ ok a
    → rest ≡ ok a
then_check_ok (ok u) rest h = h
then_check_ok (err e) rest h = cc

ok_inj : {A : Type 0} {a b : A} → ◌≡◌ {A = Result String A} (ok a) (ok b) → a ≡ b
ok_inj h = cc

module _ (lib : Library) (q : Input) (a : Admission) where
  -- What `Evaluate` returns when its input is valid.
  evaluated :
      evaluate lib q ≡ ok a
      → (a.eligible ≡ is_empty (blockers_of lib q))
        × (a.execution_authorized ≡ false)
        × (a.change_id ≡ q.change.id)
        × (a.change_version ≡ q.change.version)
        × (a.revision_id ≡ q.revision.id)
        × (a.revision_digest ≡ q.revision.digest)
  unfolding evaluate
  evaluated h =
      let p = ok_inj {b = a} (then_check_ok (check_input lib q) (ok (admission_of lib q)) h) in
      (
        ap (λ (x : Admission). x.eligible) (sym p),
        ap (λ (x : Admission). x.execution_authorized) (sym p),
        ap (λ (x : Admission). x.change_id) (sym p),
        ap (λ (x : Admission). x.change_version) (sym p),
        ap (λ (x : Admission). x.revision_id) (sym p),
        ap (λ (x : Admission). x.revision_digest) (sym p),
      )

  -- A preflight that returns a decision finds the change eligible exactly when it is approved and
  -- allowed, is bound to the given revision, which is the current one, has the approvals that its
  -- decision requires, and its maintenance window is open or there is none and none is required;
  -- the decision names the change, its version and the revision, and never authorizes execution.
  pub evaluate-IsAdmissible :
      evaluate lib q ≡ ok a
      → ((a.eligible ≡ true) ↔ IsAdmissible lib q)
        × (a.execution_authorized ≡ false)
        × (a.change_id ≡ q.change.id)
        × (a.change_version ≡ q.change.version)
        × (a.revision_id ≡ q.revision.id)
        × (a.revision_digest ≡ q.revision.digest)
  evaluate-IsAdmissible h =
      let e = evaluated h in
      (
        (λ t. no_blockers lib q (sym e.0 ∙ t), λ t. e.0 ∙ admissible_unblocked lib q t),
        e.1,
        e.2,
        e.3,
        e.4,
        e.5,
      )
