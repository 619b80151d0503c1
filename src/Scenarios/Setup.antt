-- ===== src/Scenarios/Setup.antt =====
-- Concrete functions of the standard library, a job and its repositories.
use control_center_stable.Prelude.{
  String, ◌≡◌, ◌≢◌, refl, none, some, [], ◌∷◌, Bool, true, false, eq_iff, ltb, ◌==◌,
}
use control_center_stable.Prelude.Map.{lookup, insert}
use control_center_stable.Prelude.Time.{pos}
use control_center_stable.Prelude.Library.{Library, concat}
use control_center_stable.Orchestration.Events.{Output}
use control_center_stable.Orchestration.Job.Model.{Job, CreateRequest, RetryPolicy}
use control_center_stable.Orchestration.Job.Steps.{
  created_job, take_lease, record_failure, lease_token,
}
use control_center_stable.Orchestration.Job.Memory.{Repository, new_repository, create, claim, fail}
use control_center_stable.Orchestration.Job.Consistent.{IsConsistent}
use control_center_stable.Orchestration.Job.History.{creates, claims, fails, run, run-IsConsistent}

abbrev pub lib : Library
lib = record {
  json_valid = λ s. true;
  sha256_hex = λ s. s;
  trim_space = λ s. s;
  decimal = λ n. elim (ltb n 3) [ true ↦ "2" | false ↦ "3" ];
  unix_nano = λ t. "3";
}

abbrev pub request : CreateRequest
request = record {
  id = "j1";
  change_id = "c1";
  action_name = "restart";
  input = "{}";
  idempotency_key = "k1";
  max_attempts = 1;
  now = 5;
}

abbrev pub output : Output
output = record { actual_states = []; health = []; audit_events = [] }

abbrev pub policy : RetryPolicy
policy = record { base_delay = pos 1000000000; max_delay = pos 60000000000 }

abbrev pub queued_job : Job
queued_job = created_job request

abbrev pub running_job : Job
running_job = take_lease lib queued_job "w1" 10 (pos 100)

abbrev pub failed_job : Job
failed_job = record_failure running_job "no answer" output policy 20

-- The token of the running job's lease.
abbrev pub token : String
token = "j1:w1:2:3"

abbrev pub with_queued : Repository
with_queued = run lib (creates none request ∷ []) new_repository

abbrev pub with_running : Repository
with_running = run lib (creates none request ∷ claims none "w1" 10 (pos 100) ∷ []) new_repository

abbrev pub with_failed : Repository
with_failed =
    run lib
      (creates none request
        ∷ claims none "w1" 10 (pos 100)
        ∷ fails none "j1" token "no answer" output policy 20
        ∷ [])
      new_repository

pub queued-IsConsistent : IsConsistent lib with_queued
queued-IsConsistent = run-IsConsistent lib (creates none request ∷ [])

pub running-IsConsistent : IsConsistent lib with_running
running-IsConsistent =
    run-IsConsistent lib (creates none request ∷ claims none "w1" 10 (pos 100) ∷ [])

pub failed-IsConsistent : IsConsistent lib with_failed
failed-IsConsistent = run-IsConsistent lib (
    creates none request
    ∷ claims none "w1" 10 (pos 100)
    ∷ fails none "j1" token "no answer" output policy 20
    ∷ [])

pub queued_found : lookup "j1" with_queued.jobs ≡ some queued_job
unfolding run create lookup insert
queued_found = refl

pub running_found : lookup "j1" with_running.jobs ≡ some running_job
unfolding run create claim lookup insert
running_found = refl

pub failed_found : lookup "j1" with_failed.jobs ≡ some failed_job
unfolding run create claim fail lookup insert lease_token concat
failed_found = refl

-- Texts that compare as different are different.
pub texts_differ : (s t : String) → (s == t) ≡ false → s ≢ t
texts_differ s t h e = clash (s == t) ((eq_iff s t).1 e) h
  where
    clash : (b : Bool) → b ≡ true → b ≡ false → ⊥
    clash b h k = cc
