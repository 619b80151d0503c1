-- ===== src/Orchestration/Job/Claims.antt =====
-- Which job `Claim` of internal/orchestration/job/memory.go hands out.
mod Loop
use control_center_stable.Prelude.{
  ℕ, ap, ◌≤◌, ◌<◌, String, ◌≡◌, ◌≢◌, refl, sym, Option, none, some, List, [], ◌∷◌, Bool, true,
  false, not, ◌&&◌, ◌||◌, arith, eq_iff, Context, Result, ok, err, if◌then◌else◌, ◌==◌, inl, inr,
  ◌⊎◌, Bool-cases, Option-cases, ltb, nat_eq,
}
use control_center_stable.Prelude.Map.{Map, lookup, insert, map_laws, lookup-insert}
use control_center_stable.Prelude.Time.{Time, Duration, is_zero, is_positive, before}
use control_center_stable.Prelude.Library.{Library, text_before}
use control_center_stable.Prelude.Sorting.{
  listed, no_later, text_before_trans, text_before_irrefl, listed-sort_slice, sort_slice-no_later,
}
use control_center_stable.Orchestration.Job.Model.{Error, Job, Lease, running, or_zero}
use control_center_stable.Orchestration.Job.Steps.{
  visit, Visit, Visit-cases, skip, write, claim_it, take_lease, eligible, lease_expired,
}
use control_center_stable.Orchestration.Job.Memory.{
  Repository, save, claim, claim_loop, claim_order, keys, id_earlier, created_earlier,
}
use control_center_stable.Orchestration.Job.Lifecycle.{holds_lease}
use control_center_stable.Orchestration.Job.Refines.{visit-or_zero}
use Loop.{
  id_earlier_irrefl, id_earlier_trans, id_earlier-at, listed-keys, claim_loop_skipped, Claims,
  claim_loop-Claims,
}

-- The job may be claimed: it is queued, its retry is due, or its worker's lease expired; and it has
-- an attempt left.
unfoldable pub claimable : Job → Time → Bool
unfolding eligible
claimable j now = eligible j now && ltb j.attempt j.max_attempts

-- What `Claim` returns and leaves when it hands out a job.
pub record HandsOut (lib : Library) (worker_id : String) (now : Time) (ttl : Duration)
    (r : Repository) (j : Job) (result : Result Error (Option Job) × Repository) : Type 0 where
  pub holder : String
  pub found : Job
  pub at : lookup holder r.jobs ≡ some found
  pub was_claimable : claimable found now ≡ true
  pub oldest : created_earlier j found ≡ false
  pub returned : result.0 ≡ ok (some (take_lease lib found worker_id now ttl))
  pub stored : lookup holder result.1.jobs ≡ some (take_lease lib found worker_id now ttl)

module _ (lib : Library) (worker_id : String) (now : Time) (ttl : Duration) where
  claimable-visit :
      (j : Job)
      → claimable j now ≡ true
      → visit lib worker_id now ttl j ≡ claim_it (take_lease lib j worker_id now ttl)
  unfolding visit claimable
  claimable-visit j h = ground arith

  visit-claimable :
      (j k : Job)
      → visit lib worker_id now ttl j ≡ claim_it k
      → (claimable j now ≡ true) × (k ≡ take_lease lib j worker_id now ttl)
  unfolding visit claimable
  visit-claimable j k h = ground arith

  claim_valid :
      (r : Repository)
      → (worker_id ≢ "")
      → 0 < now
      → is_positive ttl ≡ true
      → claim lib none worker_id now ttl r ≡ claim_loop lib worker_id now ttl (claim_order r.jobs) r
  unfolding claim
  claim_valid r named timed positive = ground (arith, eq_iff worker_id "")

  claim_loop-HandsOut :
      (r : Repository) (id : String) (j : Job)
      → lookup id r.jobs ≡ some j
      → claimable j now ≡ true
      → HandsOut lib worker_id now ttl r j (claim_loop lib worker_id now ttl (claim_order r.jobs) r)
  unfolding claim_order
  claim_loop-HandsOut r id j at h =
      let l = listed-keys id r.jobs j at in
      let c =
        claim_loop-Claims lib worker_id now ttl (claim_order r.jobs) r id j
          (take_lease lib j worker_id now ttl) at (claimable-visit j h)
          (rw (listed-sort_slice (id_earlier r.jobs) id (keys r.jobs)) l) in
      let (ready, made) = visit-claimable c.found c.claimed c.visited in
      record {
        holder = c.holder;
        found = c.found;
        at = c.at;
        was_claimable = ready;
        oldest = id_earlier-at r.jobs id c.holder j c.found at c.at (
            sort_slice-no_later (id_earlier r.jobs) (id_earlier_irrefl r.jobs)
              (id_earlier_trans r.jobs) c.holder id (keys r.jobs) l c.first);
        returned = rw (← made) c.returned;
        stored = rw (← made) c.stored;
      }

  -- If a job may be claimed, a claim with a worker ID, a time and a positive duration hands out a
  -- job: one that may be claimed, and than which the given job was not created earlier. It starts
  -- the job's next attempt under a lease of the worker, and stores it.
  pub claim-HandsOut :
      (r : Repository) (id : String) (j : Job)
      → (worker_id ≢ "")
      → 0 < now
      → is_positive ttl ≡ true
      → lookup id r.jobs ≡ some j
      → claimable j now ≡ true
      → HandsOut lib worker_id now ttl r j (claim lib none worker_id now ttl r)
  claim-HandsOut r id j named timed positive at h =
      rw (claim_valid r named timed positive) (claim_loop-HandsOut r id j at h)

  leased-visit :
      (j : Job) (l : Lease)
      → holds_lease j.status ≡ true
      → j.lease ≡ some l
      → now < l.expires_at
      → visit lib worker_id now ttl j ≡ skip
  unfolding visit
  leased-visit j l held leased fresh = ground arith

  -- A claim leaves a job that runs, or that is asked to stop, as it is until its lease expires.
  pub claim-leased :
      (ctx : Context) (r : Repository) (id : String) (j : Job) (l : Lease)
      → lookup id r.jobs ≡ some j
      → holds_lease j.status ≡ true
      → j.lease ≡ some l
      → now < l.expires_at
      → lookup id (claim lib ctx worker_id now ttl r).1.jobs ≡ some j
  unfolding claim
  claim-leased (some e) r id j l at held leased fresh = at
  claim-leased none r id j l at held leased fresh =
      elim (Bool-cases (worker_id == "" || is_zero now || not (is_positive ttl))) [
        | inl bad ↦ rw bad at
        | inr good ↦ rw good (
            claim_loop_skipped lib worker_id now ttl (claim_order r.jobs) r id j at
              (leased-visit j l held leased fresh))
      ]
