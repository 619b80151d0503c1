-- ===== src/NetworkPolicy/ChangeMachine/Window.antt =====
-- The apply window of internal/networkpolicy/change_machine.go bounds when a change commits.
use control_center_stable.Prelude.{ℕ, ◌≤◌, String, ◌≡◌, List, [], ◌∷◌, arith, inl, inr}
use control_center_stable.Prelude.Time.{Time}
use control_center_stable.NetworkPolicy.ChangeEvents.{ChangeEvent, EventLibrary}
use control_center_stable.NetworkPolicy.ChangeMachine.{
  ChangeState, snapshot_pending, preflight, apply_window, probing, committed, ChangeMachine, apply,
  apply_new,
}
use control_center_stable.NetworkPolicy.ChangeMachine.Graph.{apply_cases}

abbrev WithinState : ChangeState → Time → Time → Time → Type 0
WithinState snapshot_pending limit deadline updated = ⊥
WithinState preflight limit deadline updated = ⊥
WithinState apply_window limit deadline updated = deadline ≤ limit
WithinState probing limit deadline updated = deadline ≤ limit
WithinState committed limit deadline updated = updated ≤ limit
WithinState _ limit deadline updated = Unit

-- The change entered its apply window, and its deadline, or its commit, is within a limit.
abbrev IsWithin : Time → ChangeMachine → Type 0
IsWithin limit m = WithinState m.snapshot.state limit m.snapshot.deadline m.snapshot.updated_at

apply_new-IsWithin :
    (limit : Time) (e : ChangeEvent) (digest : String) (version : ℕ) (m : ChangeMachine)
    → IsWithin limit m
    → IsWithin limit (apply_new e digest version m).1
unfolding apply_new
apply_new-IsWithin limit e digest version m h = ground arith

unfoldable pub run_events : EventLibrary → List (ChangeEvent × ℕ) → ChangeMachine → ChangeMachine
run_events lib [] m = m
run_events lib ((e, version) ∷ es) m = run_events lib es (apply lib e version m).1

apply-IsWithin :
    (limit : Time) (lib : EventLibrary) (e : ChangeEvent) (version : ℕ) (m : ChangeMachine)
    → IsWithin limit m
    → IsWithin limit (apply lib e version m).1
apply-IsWithin limit lib e version m h = elim (apply_cases lib e version m) [
  | inl same ↦ rw same h
  | inr (digest, q) ↦ rw q (apply_new-IsWithin limit e digest version m h)
]

run_events-IsWithin :
    (limit : Time) (lib : EventLibrary) (es : List (ChangeEvent × ℕ)) (m : ChangeMachine)
    → IsWithin limit m
    → IsWithin limit (run_events lib es m)
unfolding run_events
run_events-IsWithin limit lib [] m h = h
run_events-IsWithin limit lib ((e, version) ∷ es) m h =
    run_events-IsWithin limit lib es (apply lib e version m).1
      (apply-IsWithin limit lib e version m h)

enters-IsWithin :
    (limit : Time) (m : ChangeMachine)
    → m.snapshot.state ≡ apply_window
    → m.snapshot.deadline ≤ limit
    → IsWithin limit m
enters-IsWithin limit m s h = ground arith

commits_within :
    (limit : Time) (m : ChangeMachine)
    → IsWithin limit m
    → m.snapshot.state ≡ committed
    → m.snapshot.updated_at ≤ limit
commits_within limit m h s = ground arith

-- A change that stands in its apply window, and that a sequence of events commits, in whatever
-- order they come and at whatever versions, commits no later than the deadline of that window: the
-- timeout of the probes does not extend it.
pub commit_in_window :
    (lib : EventLibrary) (es : List (ChangeEvent × ℕ)) (m : ChangeMachine)
    → m.snapshot.state ≡ apply_window
    → (run_events lib es m).snapshot.state ≡ committed
    → (run_events lib es m).snapshot.updated_at ≤ m.snapshot.deadline
commit_in_window lib es m s c =
    commits_within m.snapshot.deadline (run_events lib es m)
      (run_events-IsWithin m.snapshot.deadline lib es m
        (enters-IsWithin m.snapshot.deadline m s (omega arith)))
      c
