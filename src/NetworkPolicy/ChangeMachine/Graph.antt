-- ===== src/NetworkPolicy/ChangeMachine/Graph.antt =====
-- The state graph of internal/networkpolicy/change_machine.go, stated without its code.
use control_center_stable.Prelude.{
  ℕ, ap, ◌≤◌, String, ◌≡◌, refl, false, arith, ok, err, inl, inr, ◌⊎◌, Bool-cases, Option-cases,
  Result-cases,
}
use control_center_stable.Prelude.Map.{lookup}
use control_center_stable.Prelude.Time.{next_u64, before}
use control_center_stable.NetworkPolicy.ChangeEvents.{
  ChangeEvent, ChangeError, ChangeEventType, validate_and_digest_event, EventLibrary,
}
use control_center_stable.NetworkPolicy.ChangeMachine.{
  ChangeState, snapshot_pending, preflight, apply_window, probing, rollback_pending, committed,
  rolled_back, failed_closed, record_event, pass_probe, ChangeMachine, apply, apply_new,
  apply_digested, dispatch, Moved,
}

-- Before the apply window a failure closes the change; from the apply window on, the only ways out
-- are a commit, after the probes, and a rollback, which succeeds or fails closed.
infix 40 ◌⟶◌
pub data ◌⟶◌ : ChangeState → ChangeState → Type 0 where
  capture : snapshot_pending ⟶ preflight
  no_snapshot : snapshot_pending ⟶ failed_closed
  check : preflight ⟶ apply_window
  unsafe : preflight ⟶ failed_closed
  try : apply_window ⟶ probing
  late : apply_window ⟶ rollback_pending
  more : probing ⟶ probing
  commit : probing ⟶ committed
  broken : probing ⟶ rollback_pending
  restore : rollback_pending ⟶ rolled_back
  stuck : rollback_pending ⟶ failed_closed

ruleset edges =
    (capture, no_snapshot, check, unsafe, try, late, more, commit, broken, restore, stuck)

-- A transition that succeeds follows an edge.
dispatch-⟶ :
    (kind : ChangeEventType) (e : ChangeEvent) (m : ChangeMachine) (s : ChangeState)
    → (dispatch s kind e m).0 ≡ ok tt
    → m.snapshot.state ≡ s
    → s ⟶ (dispatch s kind e m).1.snapshot.state
unfolding dispatch
dispatch-⟶ kind e m s h q = grind (arith, edges)

-- What an event does to the machine: nothing, or a step along an edge at the next version.
abbrev pub Steps : ChangeMachine → ChangeMachine → Type 0
Steps m n =
    (n ≡ m)
    ⊎ ((m.snapshot.state ⟶ n.snapshot.state)
        × (n.snapshot.version ≡ next_u64 m.snapshot.version)
        × (m.snapshot.updated_at ≤ n.snapshot.updated_at))

dispatch_err :
    (kind : ChangeEventType) (e : ChangeEvent) (m : ChangeMachine) (s : ChangeState)
    (x : ChangeError)
    → (dispatch s kind e m).0 ≡ err x
    → (dispatch s kind e m).1 ≡ m
unfolding dispatch pass_probe
dispatch_err kind e m s x h = grind arith

dispatch_version :
    (kind : ChangeEventType) (e : ChangeEvent) (m : ChangeMachine) (s : ChangeState)
    → (dispatch s kind e m).1.snapshot.version ≡ m.snapshot.version
unfolding dispatch pass_probe
dispatch_version kind e m s = ground arith

record_event-Steps :
    (e : ChangeEvent) (digest : String) (m : ChangeMachine) (moved : Moved)
    → ((moved.0 ≡ ok tt) → m.snapshot.state ⟶ moved.1.snapshot.state)
    → ((x : ChangeError) → moved.0 ≡ err x → moved.1 ≡ m)
    → moved.1.snapshot.version ≡ m.snapshot.version
    → before e.at m.snapshot.updated_at ≡ false
    → Steps m (record_event e digest moved).1
record_event-Steps e digest m (ok u, n) edge same version h =
    inr (edge refl, ap next_u64 version, ground arith)
record_event-Steps e digest m (err x, n) edge same version h = inl (same x refl)

apply_new-Steps :
    (e : ChangeEvent) (digest : String) (version : ℕ) (m : ChangeMachine)
    → Steps m (apply_new e digest version m).1
unfolding apply_new
apply_new-Steps e digest version m = elim (Bool-cases (before e.at m.snapshot.updated_at)) [
  | inl early ↦ inl (ground arith)
  | inr in_order ↦
      let moves =
        record_event-Steps e digest m (dispatch m.snapshot.state e.kind e m)
          (λ h. dispatch-⟶ e.kind e m m.snapshot.state h refl)
          (λ x. dispatch_err e.kind e m m.snapshot.state x)
          (dispatch_version e.kind e m m.snapshot.state) in_order in
      ground arith
]

-- `apply` leaves the machine, or it does what `apply_new` does with the event's digest.
pub apply_cases :
    (lib : EventLibrary) (e : ChangeEvent) (version : ℕ) (m : ChangeMachine)
    → ((apply lib e version m).1 ≡ m)
      ⊎ ((digest : String) × ((apply lib e version m).1 ≡ (apply_new e digest version m).1))
unfolding apply apply_digested
apply_cases lib e version m = elim (Result-cases (validate_and_digest_event lib e)) [
  | inr (x, q) ↦ inl (ground arith)
  | inl (digest, q) ↦ elim (Option-cases (lookup e.id m.processed_events)) [
    | inl fresh ↦ inr (digest, ground arith)
    | inr (previous, known) ↦ inl (ground arith)
  ]
]

-- An event leaves the machine as it is, or moves its state along an edge of the state graph, to
-- the next version, and no further back in time; whatever the event, and the version that its
-- caller expects.
pub apply-Steps :
    (lib : EventLibrary) (e : ChangeEvent) (version : ℕ) (m : ChangeMachine)
    → Steps m (apply lib e version m).1
apply-Steps lib e version m = elim (apply_cases lib e version m) [
  | inl same ↦ inl same
  | inr (digest, q) ↦ rw q (apply_new-Steps e digest version m)
]
