-- ===== src/Scenarios/Nodes.antt =====
-- The theorems on the lifecycle of nodes, at a node that is taken into maintenance.
use control_center_stable.Prelude.{
  ℕ, suc, ltb, nat_eq, ◌≡◌, refl, String, none, List, [], ◌∷◌, ok, ◌<◌,
}
use control_center_stable.Prelude.Time.{Time}
use control_center_stable.Prelude.Sorting.{listed}
use control_center_stable.Nodes.Metadata.{TextLibrary}
use control_center_stable.Nodes.Lifecycle.{
  NodeLifecycle, TransitionRequest, TransitionType, State, EvidenceCheck, validate_initial,
  validate_transition, discovered, enrolling, ready, draining, maintenance, desired, observation,
  drain_checks, retired,
}
use control_center_stable.Nodes.Lifecycle.History.{
  History, created, moved, WasDrained, desired_count, out_WasDrained, generation_counts, Earlier,
  last, further, earlier_is_older,
}

abbrev text_lib : TextLibrary
text_lib = record { trim_space = λ s. s; is_control = λ c. ltb c 32; is_space = λ c. nat_eq c 32 }

abbrev node : State → ℕ → String → Time → NodeLifecycle
node state generation version at = record {
  metadata = record {
    object_id = "node-1";
    scope_id = "site-1";
    owner_scope = "site-1";
    generation = generation;
    resource_version = version;
    created_at = 10;
    updated_at = at;
  };
  state = state;
  state_changed_at = at;
  reason = "";
}

abbrev request : State → TransitionType → String → List EvidenceCheck → TransitionRequest
request target kind version evidence = record {
  target = target;
  kind = kind;
  reason = "";
  precondition = record { object_id = "node-1"; resource_version = version; generation = none };
  evidence = evidence;
}

abbrev found : NodeLifecycle
found = node discovered 1 "v1" 10

abbrev enrolled : NodeLifecycle
enrolled = node enrolling 2 "v2" 20

abbrev serving : NodeLifecycle
serving = node ready 2 "v3" 30

abbrev drained : NodeLifecycle
drained = node draining 3 "v4" 40

abbrev serviced : NodeLifecycle
serviced = node maintenance 3 "v5" 50

abbrev enroll : TransitionRequest
enroll = request enrolling desired "v1" ("enrollment-authorized" ∷ [])

abbrev serve : TransitionRequest
serve = request ready observation "v2" ("identity-verified" ∷ "readiness-passed" ∷ [])

abbrev drain : TransitionRequest
drain = request draining desired "v3" ("maintenance-preflight-passed" ∷ "scheduling-disabled" ∷ [])

abbrev service : TransitionRequest
service = request maintenance observation "v4" drain_checks

found_valid : validate_initial text_lib found ≡ ok tt
unfolding validate_initial
found_valid = refl

enroll_valid : validate_transition text_lib found enrolled enroll ≡ ok tt
unfolding validate_transition listed
enroll_valid = refl

serve_valid : validate_transition text_lib enrolled serving serve ≡ ok tt
unfolding validate_transition listed
serve_valid = refl

drain_valid : validate_transition text_lib serving drained drain ≡ ok tt
unfolding validate_transition listed
drain_valid = refl

service_valid : validate_transition text_lib drained serviced service ≡ ok tt
unfolding validate_transition listed
service_valid = refl

abbrev served_life : History text_lib serving
served_life =
    moved enrolled serving serve
      (moved found enrolled enroll (created found found_valid) enroll_valid) serve_valid

abbrev drained_life : History text_lib drained
drained_life = moved serving drained drain served_life drain_valid

abbrev life : History text_lib serviced
life = moved drained serviced service drained_life service_valid

abbrev served_before : Earlier serving serviced life
served_before =
    further drained serviced service drained_life service_valid
      (last drained drain served_life drain_valid)

out_WasDrained_example : WasDrained serviced life
out_WasDrained_example = out_WasDrained text_lib serviced life refl

generation_counts_example : 3 ≡ suc (desired_count life)
generation_counts_example = generation_counts text_lib serviced life

earlier_is_older_example :
    (serving.state_changed_at < serviced.state_changed_at)
    × (serviced.metadata.object_id ≡ serving.metadata.object_id)
    × (serviced.metadata.created_at ≡ serving.metadata.created_at)
    × ¬ (serving.state ≡ retired)
earlier_is_older_example = earlier_is_older text_lib serving serviced life served_before
