-- ===== src/NetworkPolicy/ChangeMachine/Probes.antt =====
-- A network change of internal/networkpolicy/change_machine.go commits only when all its probes have
-- passed: the machine compares the number of the passed probes with the number of the plan's.
use control_center_stable.Prelude.{
  ℕ, suc, String, ◌≡◌, refl, List, [], ◌∷◌, true, false, arith, eq_iff, ok, err, inl, inr, length,
  ◌==◌, Bool-cases, if◌then◌else◌,
}
use control_center_stable.Prelude.Time.{Time}
use control_center_stable.Prelude.Sorting.{listed}
use control_center_stable.NetworkPolicy.ChangeEvents.{ChangeEvent, ChangeEventType, EventLibrary}
use control_center_stable.NetworkPolicy.ChangeMachine.{
  ChangeState, committed, ChangeMachine, Moved, probe_ids, new_change_machine, pass_probe, dispatch,
  record_event, apply_new, apply,
}
use control_center_stable.NetworkPolicy.ChangePlan.{ChangePlan, PlanLibrary, ConnectivityProbe}
use control_center_stable.NetworkPolicy.ChangeMachine.Graph.{apply_cases}
use control_center_stable.NetworkPolicy.ChangeMachine.Window.{run_events}

-- The list without the first `x`.
drop_first : String → List String → List String
drop_first x [] = []
drop_first x (y ∷ ys) = if y == x then ys else y ∷ drop_first x ys

length-drop_first :
    (x : String) (ys : List String)
    → listed x ys ≡ true
    → suc (length (drop_first x ys)) ≡ length ys
unfolding listed drop_first
length-drop_first x [] h = cc
length-drop_first x (y ∷ ys) h = ground (arith, length-drop_first x ys)

listed-drop_first :
    (x y : String) (ys : List String) → (x == y) ≡ false → listed y (drop_first x ys) ≡ listed y ys
unfolding listed drop_first
listed-drop_first x y [] d = refl
listed-drop_first x y (z ∷ zs) d =
    ground (arith, listed-drop_first x y zs, eq_iff z x, eq_iff z y, eq_iff x y)

-- No text stands in the list twice.
abbrev Unrepeated : List String → Type 0
Unrepeated [] = Unit
Unrepeated (x ∷ xs) = (listed x xs ≡ false) × Unrepeated xs

abbrev AllListed : List String → List String → Type 0
AllListed ys [] = Unit
AllListed ys (x ∷ xs) = (listed x ys ≡ true) × AllListed ys xs

AllListed-drop_first :
    (x : String) (ys xs : List String)
    → listed x xs ≡ false
    → AllListed ys xs
    → AllListed (drop_first x ys) xs
unfolding listed
AllListed-drop_first x ys [] d h = tt
AllListed-drop_first x ys (z ∷ zs) d h = (
  ground (arith, listed-drop_first x z ys, eq_iff x z, eq_iff z x, h.0),
  AllListed-drop_first x ys zs (ground arith) h.1,
)

-- Texts of a list, none twice and as many as the list is long, are all texts of the list.
all_listed :
    (xs ys : List String) (y : String)
    → Unrepeated xs
    → AllListed ys xs
    → length xs ≡ length ys
    → listed y ys ≡ true
    → listed y xs ≡ true
unfolding listed
all_listed [] [] y u a e h = h
all_listed [] (z ∷ zs) y u a e h = ground arith
all_listed (x ∷ xs) ys y u a e h = elim (Bool-cases (x == y)) [
  | inl same ↦ rw same refl
  | inr differs ↦ rw differs (
      all_listed xs (drop_first x ys) y u.1 (AllListed-drop_first x ys xs u.0 a.1)
        (ground (arith, length-drop_first x ys a.0)) (rw (listed-drop_first x y ys differs) h))
]

length-probe_ids : (probes : List ConnectivityProbe) → length (probe_ids probes) ≡ length probes
unfolding probe_ids
length-probe_ids [] = refl
length-probe_ids (probe ∷ rest) = omega (arith, length-probe_ids rest)

-- The passed probes are different probes of the plan, and all of them once the change is committed.
record IsCounted (probes : List String) (m : ChangeMachine) : Type 0 where
  planned : probe_ids m.plan.probes ≡ probes
  unrepeated : Unrepeated m.passed
  all_planned : AllListed probes m.passed
  complete : m.snapshot.state ≡ committed → length m.passed ≡ length probes

dispatch-IsCounted :
    (kind : ChangeEventType) (e : ChangeEvent) (probes : List String) (m : ChangeMachine)
    (s : ChangeState)
    → m.snapshot.state ≡ s
    → IsCounted probes m
    → IsCounted probes (dispatch s kind e m).1
unfolding dispatch pass_probe
dispatch-IsCounted kind e probes m s q h = ground (arith, length-probe_ids m.plan.probes)

record_event-IsCounted :
    (e : ChangeEvent) (digest : String) (probes : List String) (moved : Moved)
    → IsCounted probes moved.1
    → IsCounted probes (record_event e digest moved).1
record_event-IsCounted e digest probes (ok u, m) h = record {
  planned = h.planned;
  unrepeated = h.unrepeated;
  all_planned = h.all_planned;
  complete = h.complete;
}
record_event-IsCounted e digest probes (err x, m) h = h

apply_new-IsCounted :
    (e : ChangeEvent) (digest : String) (version : ℕ) (probes : List String) (m : ChangeMachine)
    → IsCounted probes m
    → IsCounted probes (apply_new e digest version m).1
unfolding apply_new
apply_new-IsCounted e digest version probes m h =
    let moved =
      record_event-IsCounted e digest probes (dispatch m.snapshot.state e.kind e m)
        (dispatch-IsCounted e.kind e probes m m.snapshot.state refl h) in
    ground arith

apply-IsCounted :
    (lib : EventLibrary) (e : ChangeEvent) (version : ℕ) (probes : List String) (m : ChangeMachine)
    → IsCounted probes m
    → IsCounted probes (apply lib e version m).1
apply-IsCounted lib e version probes m h = elim (apply_cases lib e version m) [
  | inl same ↦ rw same h
  | inr (digest, q) ↦ rw q (apply_new-IsCounted e digest version probes m h)
]

run_events-IsCounted :
    (lib : EventLibrary) (es : List (ChangeEvent × ℕ)) (probes : List String) (m : ChangeMachine)
    → IsCounted probes m
    → IsCounted probes (run_events lib es m)
unfolding run_events
run_events-IsCounted lib [] probes m h = h
run_events-IsCounted lib ((e, version) ∷ es) probes m h =
    run_events-IsCounted lib es probes (apply lib e version m).1
      (apply-IsCounted lib e version probes m h)

new_change_machine-IsCounted :
    (plan_lib : PlanLibrary) (plan : ChangePlan) (now : Time) (m : ChangeMachine)
    → new_change_machine plan_lib plan now ≡ ok m
    → IsCounted (probe_ids plan.probes) m
unfolding new_change_machine
new_change_machine-IsCounted plan_lib plan now m h = ground arith

-- A new change that a sequence of events commits, in whatever order they come and at whatever
-- versions, has passed every probe of its plan.
pub committed_passed :
    (lib : EventLibrary) (plan_lib : PlanLibrary) (plan : ChangePlan) (now : Time)
    (m : ChangeMachine) (es : List (ChangeEvent × ℕ)) (probe : String)
    → new_change_machine plan_lib plan now ≡ ok m
    → (run_events lib es m).snapshot.state ≡ committed
    → listed probe (probe_ids plan.probes) ≡ true
    → listed probe (run_events lib es m).passed ≡ true
committed_passed lib plan_lib plan now m es probe made done planned =
    let h =
      run_events-IsCounted lib es (probe_ids plan.probes) m
        (new_change_machine-IsCounted plan_lib plan now m made) in
    all_listed (run_events lib es m).passed (probe_ids plan.probes) probe h.unrepeated h.all_planned
      (h.complete done) planned
