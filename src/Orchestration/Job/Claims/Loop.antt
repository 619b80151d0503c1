-- ===== src/Orchestration/Job/Claims/Loop.antt =====
-- The loop of `Claim` (internal/orchestration/job/memory.go): what it skips, and what it claims.
use control_center_stable.Prelude.{
  String, ◌≡◌, ◌≢◌, some, List, [], ◌∷◌, true, false, arith, eq_iff, ok, ◌==◌, inl, inr, Bool-cases,
}
use control_center_stable.Prelude.Map.{Map, lookup, map_laws}
use control_center_stable.Prelude.Time.{Time, Duration}
use control_center_stable.Prelude.Library.{Library}
use control_center_stable.Prelude.Sorting.{listed, no_later, text_before_trans, text_before_irrefl}
use control_center_stable.Orchestration.Job.Model.{Job, or_zero}
use control_center_stable.Orchestration.Job.Steps.{visit, Visit, Visit-cases, skip, write, claim_it}
use control_center_stable.Orchestration.Job.Memory.{
  Repository, save, claim_loop, keys, id_earlier, created_earlier,
}
use control_center_stable.Orchestration.Job.Refines.{visit-or_zero}

pub created_earlier_irrefl : (a : Job) → created_earlier a a ≡ false
unfolding created_earlier
created_earlier_irrefl a = ground (arith, text_before_irrefl a.id)

pub created_earlier_trans :
    (a b c : Job)
    → created_earlier a b ≡ true
    → created_earlier b c ≡ true
    → created_earlier a c ≡ true
unfolding created_earlier
created_earlier_trans a b c h k = ground (arith, text_before_trans a.id b.id c.id)

pub id_earlier_irrefl : (jobs : Map Job) (a : String) → id_earlier jobs a a ≡ false
unfolding id_earlier
id_earlier_irrefl jobs a = created_earlier_irrefl (or_zero (lookup a jobs))

pub id_earlier_trans :
    (jobs : Map Job) (a b c : String)
    → id_earlier jobs a b ≡ true
    → id_earlier jobs b c ≡ true
    → id_earlier jobs a c ≡ true
unfolding id_earlier
id_earlier_trans jobs a b c =
    created_earlier_trans (or_zero (lookup a jobs)) (or_zero (lookup b jobs))
      (or_zero (lookup c jobs))

pub id_earlier-at :
    (jobs : Map Job) (a b : String) (j k : Job)
    → lookup a jobs ≡ some j
    → lookup b jobs ≡ some k
    → id_earlier jobs a b ≡ false
    → created_earlier j k ≡ false
unfolding id_earlier
id_earlier-at jobs a b j k p q h = rw (p, q) at h

pub listed-keys :
    (id : String) (m : Map Job) (j : Job) → lookup id m ≡ some j → listed id (keys m) ≡ true
unfolding lookup listed keys
listed-keys id [] j h = cc
listed-keys id ((i, x) ∷ m) j h = ground (arith, listed-keys id m j)

saved_elsewhere :
    (r : Repository) (id i : String) (j k : Job)
    → lookup id r.jobs ≡ some j
    → i == id ≡ false
    → lookup id (save i k r).jobs ≡ some j
saved_elsewhere r id i j k at h = simp map_laws (rw h at)

module _ (lib : Library) (worker_id : String) (now : Time) (ttl : Duration) where
  -- The visits of one repository, by ID.
  abbrev at_id : Repository → String → Visit
  at_id r i = visit lib worker_id now ttl (or_zero (lookup i r.jobs))

  elsewhere :
      (r : Repository) (id i : String) (j : Job)
      → lookup id r.jobs ≡ some j
      → (at_id r i ≢ visit lib worker_id now ttl j)
      → i == id ≡ false
  elsewhere r id i j at h = elim (Bool-cases (i == id)) [
    | inl same ↦ absurd (h (rw ((eq_iff i id).0 same, at)))
    | inr differs ↦ differs
  ]

  -- A job that the loop skips is left as it is.
  pub claim_loop_skipped :
      (ids : List String) (r : Repository) (id : String) (j : Job)
      → lookup id r.jobs ≡ some j
      → visit lib worker_id now ttl j ≡ skip
      → lookup id (claim_loop lib worker_id now ttl ids r).1.jobs ≡ some j
  unfolding claim_loop
  claim_loop_skipped [] r id j at s = at
  claim_loop_skipped (i ∷ ids) r id j at s = elim (Visit-cases (at_id r i)) [
    | inl e ↦ rw (e, claim_loop) (claim_loop_skipped ids r id j at s)
    | inr (inl (k, e)) ↦
        let apart = elsewhere r id i j at (λ q. cc) in
        rw (e, claim_loop)
          (claim_loop_skipped ids (save i k r) id j (saved_elsewhere r id i j k at apart) s)
    | inr (inr (k, e)) ↦
        rw (e, claim_loop) (saved_elsewhere r id i j k at (elsewhere r id i j at (λ q. cc)))
  ]

  -- What a visit writes without claiming it is final.
  visit_written :
      (j k : Job) → visit lib worker_id now ttl j ≡ write k → visit lib worker_id now ttl k ≡ skip
  unfolding visit
  visit_written j k h = ground arith

  -- The loop claims the first job that it can claim.
  pub record Claims (ids : List String) (r : Repository) (id : String) : Type 0 where
    pub holder : String
    pub found : Job
    pub claimed : Job
    pub at : lookup holder r.jobs ≡ some found
    pub visited : visit lib worker_id now ttl found ≡ claim_it claimed
    pub first : no_later holder id ids ≡ true
    pub returned : (claim_loop lib worker_id now ttl ids r).0 ≡ ok (some claimed)
    pub stored : lookup holder (claim_loop lib worker_id now ttl ids r).1.jobs ≡ some claimed

  skip-Claims :
      (i : String) (ids : List String) (r : Repository) (id : String)
      → at_id r i ≡ skip
      → i == id ≡ false
      → Claims ids r id
      → Claims (i ∷ ids) r id
  unfolding claim_loop no_later
  skip-Claims i ids r id e apart c = record {
    holder = c.holder;
    found = c.found;
    claimed = c.claimed;
    at = c.at;
    visited = c.visited;
    first = ground (arith, c.first, apart);
    returned = rw (e, claim_loop) c.returned;
    stored = rw (e, claim_loop) c.stored;
  }

  -- What the loop claims after a write is no job that it wrote.
  found_before :
      (r : Repository) (i h : String) (w f c : Job)
      → visit lib worker_id now ttl w ≡ skip
      → visit lib worker_id now ttl f ≡ claim_it c
      → lookup h (save i w r).jobs ≡ some f
      → lookup h r.jobs ≡ some f
  found_before r i h w f c s v = simp map_laws (elim (Bool-cases (i == h)) [
    | inl same ↦ rw same (λ q. cc)
    | inr differs ↦ rw differs (λ q. q)
  ])

  write-Claims :
      (i : String) (ids : List String) (r : Repository) (id : String) (w : Job)
      → at_id r i ≡ write w
      → i == id ≡ false
      → Claims ids (save i w r) id
      → Claims (i ∷ ids) r id
  unfolding claim_loop no_later
  write-Claims i ids r id w e apart c = record {
    holder = c.holder;
    found = c.found;
    claimed = c.claimed;
    at =
        found_before r i c.holder w c.found c.claimed
          (visit_written (or_zero (lookup i r.jobs)) w e) c.visited c.at;
    visited = c.visited;
    first = ground (arith, c.first, apart);
    returned = rw (e, claim_loop) c.returned;
    stored = rw (e, claim_loop) c.stored;
  }

  claim-Claims :
      (i : String) (ids : List String) (r : Repository) (id : String) (f w : Job)
      → lookup i r.jobs ≡ some f
      → visit lib worker_id now ttl f ≡ claim_it w
      → Claims (i ∷ ids) r id
  unfolding claim_loop no_later
  claim-Claims i ids r id f w at v = record {
    holder = i;
    found = f;
    claimed = w;
    at = at;
    visited = v;
    first = ground (arith, eq_iff i i);
    returned = rw (at, v, claim_loop);
    stored = rw (at, v, claim_loop) (simp map_laws (ground (arith, eq_iff i i)));
  }

  pub claim_loop-Claims :
      (ids : List String) (r : Repository) (id : String) (j k : Job)
      → lookup id r.jobs ≡ some j
      → visit lib worker_id now ttl j ≡ claim_it k
      → listed id ids ≡ true
      → Claims ids r id
  unfolding listed
  claim_loop-Claims [] r id j k at v l = cc
  claim_loop-Claims (i ∷ ids) r id j k at v l = elim (Visit-cases (at_id r i)) [
    | inl e ↦
        let apart = elsewhere r id i j at (λ q. cc) in
        skip-Claims i ids r id e apart (claim_loop-Claims ids r id j k at v (rw apart at l))
    | inr (inl (w, e)) ↦
        let apart = elsewhere r id i j at (λ q. cc) in
        write-Claims i ids r id w e apart (
          claim_loop-Claims ids (save i w r) id j k (saved_elsewhere r id i j w at apart) v
            (rw apart at l))
    | inr (inr (w, e)) ↦
        elim (visit-or_zero lib worker_id now ttl i (lookup i r.jobs) (claim_it w) e) [
          | inl q ↦ cc
          | inr (f, q, u) ↦ claim-Claims i ids r id f w q u
        ]
  ]
