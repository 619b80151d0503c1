-- ===== src/Orchestration/Change/Authorized.antt =====
-- No change of internal/orchestration/change/change.go runs without its approvals.
use control_center_stable.Prelude.{
  ℕ, String, ◌≡◌, refl, List, [], ◌∷◌, ◌++◌, Bool, true, false, arith, ok, err, Result, inl, inr,
  ◌⊎◌, Bool-cases, nat_eq,
}
use control_center_stable.Prelude.Time.{Time, is_positive, next_u64}
use control_center_stable.Prelude.Library.{Library}
use control_center_stable.Orchestration.Policy.{Decision, Approval, allow, check_approvals}
use control_center_stable.Orchestration.Config.{Revision}
use control_center_stable.Orchestration.Change.{
  State, pending_approval, approved, queued, executing, verifying, succeeded, failed, cancelled,
  rejected, Snapshot, new, approve, transition, allowed, is_ok, is_pending,
}

-- The states from the approval on, without the ones that an unapproved change may enter too.
abbrev pub needs_approval : State → Bool
needs_approval approved = true
needs_approval queued = true
needs_approval executing = true
needs_approval verifying = true
needs_approval succeeded = true
needs_approval failed = true
needs_approval _ = false

-- Whether the change is allowed and has the approvals that its decision requires, if any.
abbrev pub IsApproved : Library → Snapshot → Type 0
IsApproved lib s =
    (s.decision.effect ≡ allow)
    × ((is_positive s.decision.requirement.minimum ≡ false)
        ⊎ (check_approvals lib s.requester s.decision.requirement s.approvals ≡ ok tt))

-- A pending change is allowed by its decision, and one that went on is approved.
pub record IsAuthorized (lib : Library) (s : Snapshot) : Type 0 where
  pub pending_allowed : s.state ≡ pending_approval → s.decision.effect ≡ allow
  pub approved_first : needs_approval s.state ≡ true → IsApproved lib s

pub data Step : Type 0 where
  approves : Approval → ℕ → Time → Step
  moves : State → ℕ → Time → Step

unfoldable pub step : Library → Step → Snapshot → Snapshot
step lib (approves approval version now) s = (approve lib approval version now s).1
step lib (moves target version now) s = (transition target version now s).1

unfoldable pub run : Library → List Step → Snapshot → Snapshot
unfolding step
run lib [] s = s
run lib (e ∷ es) s = run lib es (step lib e s)

is_ok-ok : (r : Result String (Unit {0})) → is_ok r ≡ true → r ≡ ok tt
is_ok-ok (ok u) h = refl
is_ok-ok (err e) h = cc

approve-IsAuthorized :
    (lib : Library) (approval : Approval) (version : ℕ) (now : Time) (s : Snapshot)
    → IsAuthorized lib s
    → IsAuthorized lib (approve lib approval version now s).1
unfolding approve
approve-IsAuthorized lib approval version now s h = ground (
  arith,
  is_ok-ok (check_approvals lib s.requester s.decision.requirement (s.approvals ++ approval ∷ [])),
)

transition-IsAuthorized :
    (lib : Library) (target : State) (version : ℕ) (now : Time) (s : Snapshot)
    → IsAuthorized lib s
    → IsAuthorized lib (transition target version now s).1
unfolding transition
transition-IsAuthorized lib target version now s h = ground arith

new-IsAuthorized :
    (lib : Library) (id action requester : String) (revision : Revision) (decision : Decision)
    (now : Time) (s : Snapshot)
    → new lib id action requester revision decision now ≡ ok s
    → IsAuthorized lib s
unfolding new
new-IsAuthorized lib id action requester revision decision now s h = ground arith

run-keeps :
    (lib : Library) (steps : List Step) (s : Snapshot)
    → IsAuthorized lib s
    → IsAuthorized lib (run lib steps s)
unfolding run step
run-keeps lib [] s h = h
run-keeps lib (approves approval version now ∷ es) s h =
    run-keeps lib es (approve lib approval version now s).1
      (approve-IsAuthorized lib approval version now s h)
run-keeps lib (moves target version now ∷ es) s h =
    run-keeps lib es (transition target version now s).1
      (transition-IsAuthorized lib target version now s h)

-- After any approvals and transitions of a new change, refused ones included, a change that is
-- approved, queued, executing, verifying, succeeded or failed has a decision that allows it, and
-- its approvals satisfy the decision's requirement unless that asks for none.
pub run-IsApproved :
    (lib : Library) (id action requester : String) (revision : Revision) (decision : Decision)
    (now : Time) (s : Snapshot) (steps : List Step)
    → new lib id action requester revision decision now ≡ ok s
    → needs_approval (run lib steps s).state ≡ true
    → IsApproved lib (run lib steps s)
run-IsApproved lib id action requester revision decision now s steps h n =
    (run-keeps lib steps s
        (new-IsAuthorized lib id action requester revision decision now s h)).approved_first
      n

abbrev pub is_final : State → Bool
is_final succeeded = true
is_final failed = true
is_final cancelled = true
is_final rejected = true
is_final _ = false

step-final : (lib : Library) (e : Step) (s : Snapshot) → is_final s.state ≡ true → step lib e s ≡ s
unfolding step approve transition
step-final lib (approves approval version now) s h = ground arith
step-final lib (moves target version now) s h = ground arith

-- A change that is succeeded, failed, cancelled or rejected is never changed again.
pub run-final :
    (lib : Library) (steps : List Step) (s : Snapshot)
    → is_final s.state ≡ true
    → run lib steps s ≡ s
unfolding run
run-final lib [] s h = refl
run-final lib (e ∷ es) s h = rw (step-final lib e s h) (run-final lib es s h)

-- An approval and a transition succeed only at the version that the caller names, and then give
-- the change the next version; otherwise they change nothing.
pub step-version :
    (lib : Library) (approval : Approval) (target : State) (version : ℕ) (now : Time) (s : Snapshot)
    → (((approve lib approval version now s).1 ≡ s)
        ⊎ ((s.version ≡ version)
            × ((approve lib approval version now s).1.version ≡ next_u64 s.version)
            × (s.state ≡ pending_approval)))
      × (((transition target version now s).1 ≡ s)
          ⊎ ((s.version ≡ version)
              × ((transition target version now s).1.version ≡ next_u64 s.version)
              × ((transition target version now s).1.state ≡ target)
              × (allowed s.state target ≡ true)))
unfolding approve transition
step-version lib approval target version now s = (
  elim (Bool-cases (nat_eq s.version version)) [
    | inr stale ↦ inl (rw stale)
    | inl match ↦ elim (Bool-cases (is_pending s.state)) [
      | inr closed ↦ inl (rw (match, closed))
      | inl waiting ↦ inr (ground arith)
    ]
  ],
  elim (Bool-cases (nat_eq s.version version)) [
    | inr stale ↦ inl (rw stale)
    | inl match ↦ elim (Bool-cases (allowed s.state target)) [
      | inr refused ↦ inl (rw (match, refused))
      | inl may ↦ inr (ground arith)
    ]
  ],
)
