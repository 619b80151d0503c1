-- ===== src/Nodes/Lifecycle/History.antt =====
-- What holds of every node whose lifecycle internal/nodelifecycle/lifecycle.go has checked, from its
-- discovery on.
use control_center_stable.Prelude.{
  ℕ, suc, some, Bool, true, false, ◌==◌, ok, ◌≡◌, refl, inl, inr, ◌⊎◌, arith, eq_iff, ◌<◌, ◌∙◌,
}
use control_center_stable.Nodes.Metadata.{TextLibrary, ObjectMetadata, want_generation}
use control_center_stable.Nodes.Lifecycle.{
  unknown, State, enrolling, ready, degraded, offline, recovering, retired, draining, maintenance,
  updating, replacing, removing, state_text, NodeLifecycle, TransitionRequest, TransitionRule,
  transition_rule_for, validate_initial, validate_transition, is_desired, all_passed, drain_checks,
  discovered,
}
use control_center_stable.Nodes.Lifecycle.Checked.{
  transition_rule_found, rule_checked, successor_checked, evidence_checked, initial_checked,
}

-- The objects that are stored for a node: the first one and the successor of each.
pub data History (lib : TextLibrary) : NodeLifecycle → Type 0 where
  created : (n : NodeLifecycle) → validate_initial lib n ≡ ok tt → History lib n
  moved :
      (current next : NodeLifecycle) (request : TransitionRequest)
      → History lib current
      → validate_transition lib current next request ≡ ok tt
      → History lib next

-- The states of a node that is out of service.
abbrev pub is_out : State → Bool
is_out maintenance = true
is_out updating = true
is_out replacing = true
is_out removing = true
is_out _ = false

module _ {lib : TextLibrary} where
  -- In the history the node went from draining to maintenance with the evidence of every drain check.
  pub data WasDrained : (n : NodeLifecycle) → History lib n → Type 0 where
    now :
        (current next : NodeLifecycle) (request : TransitionRequest) (h : History lib current)
        (v : validate_transition lib current next request ≡ ok tt)
        → current.state ≡ draining
        → next.state ≡ maintenance
        → all_passed drain_checks request.evidence ≡ true
        → WasDrained next (moved current next request h v)
    before :
        (current next : NodeLifecycle) (request : TransitionRequest) (h : History lib current)
        (v : validate_transition lib current next request ≡ ok tt)
        → WasDrained current h
        → WasDrained next (moved current next request h v)

  -- How many transitions of the history were desired.
  unfoldable pub desired_count : {n : NodeLifecycle} → History lib n → ℕ
  desired_count (created n i) = 0
  desired_count (moved current next request h v) =
      let earlier = desired_count h in
      elim (is_desired request.kind) [ true ↦ suc earlier | false ↦ earlier ]

-- A node is taken out of service from draining to maintenance, with every drain check, or was out of
-- service.
out_from :
    (from to : State) (rule : TransitionRule)
    → transition_rule_for from to ≡ some rule
    → is_out to ≡ true
    → (is_out from ≡ true)
      ⊎ ((from ≡ draining) × (to ≡ maintenance) × (rule.required_checks ≡ drain_checks))
unfolding transition_rule_for
out_from from maintenance rule h o = ground arith
out_from from updating rule h o = ground arith
out_from from replacing rule h o = ground arith
out_from from removing rule h o = ground arith
out_from from discovered rule h o = ground arith
out_from from enrolling rule h o = ground arith
out_from from ready rule h o = ground arith
out_from from degraded rule h o = ground arith
out_from from draining rule h o = ground arith
out_from from offline rule h o = ground arith
out_from from recovering rule h o = ground arith
out_from from retired rule h o = ground arith
out_from from (unknown s) rule h o = ground arith

not_discovered : (s : State) → is_out s ≡ true → (state_text s == "discovered") ≡ false
not_discovered maintenance o = refl
not_discovered updating o = refl
not_discovered replacing o = refl
not_discovered removing o = refl
not_discovered discovered o = ground arith
not_discovered enrolling o = ground arith
not_discovered ready o = ground arith
not_discovered degraded o = ground arith
not_discovered draining o = ground arith
not_discovered offline o = ground arith
not_discovered recovering o = ground arith
not_discovered retired o = ground arith
not_discovered (unknown s) o = ground arith

-- A node in maintenance, or being updated, replaced or removed, went from draining to maintenance
-- before, with the evidence of every drain check.
pub out_WasDrained :
    (lib : TextLibrary) (n : NodeLifecycle) (h : History lib n)
    → is_out n.state ≡ true
    → WasDrained n h
out_WasDrained lib _ (created n i) o =
    let (text, first, valid) = initial_checked lib n i in
    ground (arith, not_discovered n.state o, eq_iff (state_text n.state) "discovered", text)
out_WasDrained lib _ (moved current n request h v) o =
    let (rule, found, checked) = transition_rule_found lib current n request v in
    let (kind, advances, evidence, successor) = rule_checked lib current n request rule checked in
    elim (out_from current.state n.state rule found o) [
      | inl was_out ↦ before current n request h v (out_WasDrained lib current h was_out)
      | inr (from, to, required) ↦
          now current n request h v from to
            (rw (← required) (evidence_checked request.evidence rule.required_checks evidence))
    ]

generation_step :
    (d : Bool) (current : ObjectMetadata) (g k : ℕ)
    → current.generation ≡ suc k
    → want_generation d current ≡ ok g
    → g ≡ suc (elim d [ true ↦ suc k | false ↦ k ])
generation_step true current g k e h = ground arith
generation_step false current g k e h = ground arith

-- The generation of a node is one more than the number of desired transitions of its history.
pub generation_counts :
    (lib : TextLibrary) (n : NodeLifecycle) (h : History lib n)
    → n.metadata.generation ≡ suc (desired_count h)
unfolding desired_count
generation_counts lib _ (created n i) = (initial_checked lib n i).1
generation_counts lib _ (moved current n request h v) =
    let (rule, found, checked) = transition_rule_found lib current n request v in
    let (kind, advances, evidence, successor) = rule_checked lib current n request rule checked in
    let (same, at, want) =
      successor_checked lib current.metadata n.metadata (is_desired request.kind) successor in
    generation_step (is_desired request.kind) current.metadata n.metadata.generation
      (desired_count h) (generation_counts lib current h) want

module _ {lib : TextLibrary} where
  -- The object m was stored before the last object n of the history.
  pub data Earlier (m : NodeLifecycle) : (n : NodeLifecycle) → History lib n → Type 0 where
    last :
        (next : NodeLifecycle) (request : TransitionRequest) (h : History lib m)
        (v : validate_transition lib m next request ≡ ok tt)
        → Earlier m next (moved m next request h v)
    further :
        (current next : NodeLifecycle) (request : TransitionRequest) (h : History lib current)
        (v : validate_transition lib current next request ≡ ok tt)
        → Earlier m current h
        → Earlier m next (moved current next request h v)

-- No rule leaves the retired state.
no_rule_from_retired :
    (from to : State) (rule : TransitionRule)
    → transition_rule_for from to ≡ some rule
    → ¬ (from ≡ retired)
unfolding transition_rule_for
no_rule_from_retired retired to rule h e = ground arith
no_rule_from_retired discovered to rule h e = ground arith
no_rule_from_retired enrolling to rule h e = ground arith
no_rule_from_retired ready to rule h e = ground arith
no_rule_from_retired degraded to rule h e = ground arith
no_rule_from_retired draining to rule h e = ground arith
no_rule_from_retired maintenance to rule h e = ground arith
no_rule_from_retired updating to rule h e = ground arith
no_rule_from_retired replacing to rule h e = ground arith
no_rule_from_retired removing to rule h e = ground arith
no_rule_from_retired offline to rule h e = ground arith
no_rule_from_retired recovering to rule h e = ground arith
no_rule_from_retired (unknown s) to rule h e = ground arith

-- What one transition keeps and what it changes.
transition_advances :
    (lib : TextLibrary) (current next : NodeLifecycle) (request : TransitionRequest)
    → validate_transition lib current next request ≡ ok tt
    → (current.state_changed_at < next.state_changed_at)
      × (next.metadata.object_id ≡ current.metadata.object_id)
      × (next.metadata.created_at ≡ current.metadata.created_at)
      × ¬ (current.state ≡ retired)
transition_advances lib current next request v =
    let (rule, found, checked) = transition_rule_found lib current next request v in
    let (kind, advances, evidence, successor) =
      rule_checked lib current next request rule checked in
    let (same, at, want) =
      successor_checked lib current.metadata next.metadata (is_desired request.kind) successor in
    (advances, same, at, no_rule_from_retired current.state next.state rule found)

-- An object that was stored earlier in a node's history has an earlier time of its state, the same id
-- and the same time of creation, and was not retired: nothing follows the retired state.
pub earlier_is_older :
    (lib : TextLibrary) (m n : NodeLifecycle) (h : History lib n)
    → Earlier m n h
    → (m.state_changed_at < n.state_changed_at)
      × (n.metadata.object_id ≡ m.metadata.object_id)
      × (n.metadata.created_at ≡ m.metadata.created_at)
      × ¬ (m.state ≡ retired)
earlier_is_older lib m n _ (last next request h v) = transition_advances lib m n request v
earlier_is_older lib m n _ (further current next request h v e) =
    let (older, same, at, live) = earlier_is_older lib m current h e in
    let (advances, same', at', live') = transition_advances lib current n request v in
    (omega arith, same' ∙ same, at' ∙ at, live)
