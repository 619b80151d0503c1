-- ===== src/Orchestration/Policy/Approvals.antt =====
-- What `CheckApprovals` of internal/orchestration/policy/policy.go lets through.
use control_center_stable.Prelude.{
  ℕ, suc, ◌<◌, ◌≤◌, String, ◌≡◌, ◌≢◌, refl, List, [], ◌∷◌, true, false, not, ◌&&◌, ◌⊎◌, ap, arith,
  eq_iff, if◌then◌else◌, length, ok, Bool-cases, inl, inr, sym,
}
use mathlib.Core.List.{Memᴰ}
use mathlib.Core.List.Memᴰ
use control_center_stable.Orchestration.Policy.Permissions.{permission_held}
use control_center_stable.Prelude.Time.{pos}
use control_center_stable.Prelude.Library.{Library}
use control_center_stable.Orchestration.Policy.{
  ApprovalRequirement, Approval, may_count, seen_before, has_permission, count_approvals,
  check_approvals,
}

abbrev pub All {ℓ κ} : {A : Type ℓ} → (A → Type κ) → List A → Type κ
All P [] = Unit
All P (x ∷ xs) = P x × All P xs

-- No actor stands in the list twice.
abbrev pub Distinct : List String → Type 0
Distinct [] = Unit
Distinct (a ∷ rest) = (¬ (Memᴰ a rest)) × Distinct rest

All-map {ℓ κ μ} :
    {A : Type ℓ} {P : A → Type κ} {Q : A → Type μ} (f : (a : A) → P a → Q a) (xs : List A)
    → All P xs
    → All Q xs
All-map f [] h = tt
All-map f (x ∷ xs) h = (f x h.0, All-map f xs h.1)

unseen_head :
    (a x : String) (seen : List String)
    → seen_before x (a ∷ seen) ≡ false
    → seen_before x seen ≡ false
unfolding seen_before
unseen_head a x seen h = ground arith

unseen_in :
    (a : String) (seen xs : List String)
    → All (λ x. seen_before x (a ∷ seen) ≡ false) xs
    → seen_before a xs ≡ false
unfolding seen_before
unseen_in a seen [] h = refl
unseen_in a seen (x ∷ xs) h = ground (arith, unseen_in a seen xs h.1, h.0, eq_iff a x, eq_iff x a)

unseen-Mem : (a : String) (xs : List String) → seen_before a xs ≡ false → ¬ (Memᴰ a xs)
unfolding seen_before
unseen-Mem a [] h m = absurd (Memᴰ.not-nil m)
unseen-Mem a (x ∷ xs) h m = elim (Memᴰ.cases_cons m) [
  | inl e ↦ ground (arith, eq_iff x a, sym e)
  | inr later ↦ unseen-Mem a xs (ground arith) later
]

module _ (lib : Library) (requester : String) (r : ApprovalRequirement) where
  -- The actor gave one of the approvals, canonically and with a time, has the permission that is
  -- required, if any is, among those of the approval, and is not the requester where that is
  -- prohibited.
  pub record Gave (actor : String) (a : Approval) : Type 0 where
    pub by : a.actor ≡ actor
    pub canonical : lib.trim_space actor ≡ actor
    pub named : actor ≢ ""
    pub timed : 0 < a.approved_at
    pub not_requester : r.prohibit_requester ≡ true → actor ≢ requester
    pub permitted : (r.permission ≡ "") ⊎ Memᴰ r.permission a.permissions

  abbrev pub GaveOne : List Approval → String → Type 0
  GaveOne [] actor = ⊥
  GaveOne (a ∷ rest) actor = Gave actor a ⊎ GaveOne rest actor

  -- The actors that the loop counts.
  counted : List String → List Approval → List String
  counted seen [] = []
  counted seen (a ∷ rest) =
      let skipped = counted seen rest in
      let marked = counted (if r.distinct_actors then a.actor ∷ seen else seen) rest in
      if not (may_count lib requester r a)
      then skipped
      else if r.distinct_actors && seen_before a.actor seen
      then skipped
      else if not (has_permission r a)
      then marked
      else a.actor ∷ marked

  -- The four ways of one approval.
  data Way (seen : List String) (a : Approval) : Type 0 where
    skip :
        ((rest : List Approval) → counted seen (a ∷ rest) ≡ counted seen rest)
        → ((rest : List Approval)
            → count_approvals lib requester r seen (a ∷ rest)
              ≡ count_approvals lib requester r seen rest)
        → Way seen a
    mark :
        ((rest : List Approval) → counted seen (a ∷ rest) ≡ counted (a.actor ∷ seen) rest)
        → ((rest : List Approval)
            → count_approvals lib requester r seen (a ∷ rest)
              ≡ count_approvals lib requester r (a.actor ∷ seen) rest)
        → Way seen a
    take :
        ((rest : List Approval) → counted seen (a ∷ rest) ≡ a.actor ∷ counted (a.actor ∷ seen) rest)
        → ((rest : List Approval)
            → count_approvals lib requester r seen (a ∷ rest)
              ≡ suc (count_approvals lib requester r (a.actor ∷ seen) rest))
        → seen_before a.actor seen ≡ false
        → may_count lib requester r a ≡ true
        → has_permission r a ≡ true
        → Way seen a

  module _ (distinct : r.distinct_actors ≡ true) where
    way : (seen : List String) (a : Approval) → Way seen a
    unfolding counted count_approvals
    way seen a = elim (Bool-cases (may_count lib requester r a)) [
      | inr cannot ↦ skip (λ rest. simp cannot) (λ rest. simp cannot)
      | inl may ↦ elim (Bool-cases (seen_before a.actor seen)) [
        | inl again ↦
            skip (λ rest. simp (may, distinct, again)) (λ rest. simp (may, distinct, again))
        | inr first ↦ elim (Bool-cases (has_permission r a)) [
          | inr lacks ↦
              mark (λ rest. simp (may, distinct, first, lacks))
                (λ rest. simp (may, distinct, first, lacks))
          | inl has ↦
              take (λ rest. simp (may, distinct, first, has))
                (λ rest. simp (may, distinct, first, has)) first may has
        ]
      ]
    ]

    length-counted :
        (seen : List String) (approvals : List Approval)
        → count_approvals lib requester r seen approvals ≡ length (counted seen approvals)
    unfolding counted count_approvals
    length-counted seen [] = refl
    length-counted seen (a ∷ rest) = elim (way seen a) [
      | skip e f ↦ rw (e rest, f rest) (length-counted seen rest)
      | mark e f ↦ rw (e rest, f rest) (length-counted (a.actor ∷ seen) rest)
      | take e f u m h ↦ rw (e rest, f rest) (ap suc (length-counted (a.actor ∷ seen) rest))
    ]

    counted_unseen :
        (seen : List String) (approvals : List Approval)
        → All (λ x. seen_before x seen ≡ false) (counted seen approvals)
    unfolding counted
    counted_unseen seen [] = tt
    counted_unseen seen (a ∷ rest) =
        let later =
          All-map (λ x. unseen_head a.actor x seen) (counted (a.actor ∷ seen) rest)
            (counted_unseen (a.actor ∷ seen) rest) in
        elim (way seen a) [
          | skip e f ↦ rw (e rest) (counted_unseen seen rest)
          | mark e f ↦ rw (e rest) later
          | take e f u m h ↦ rw (e rest) (u, later)
        ]

    counted-Distinct :
        (seen : List String) (approvals : List Approval) → Distinct (counted seen approvals)
    unfolding counted
    counted-Distinct seen [] = tt
    counted-Distinct seen (a ∷ rest) = elim (way seen a) [
      | skip e f ↦ rw (e rest) (counted-Distinct seen rest)
      | mark e f ↦ rw (e rest) (counted-Distinct (a.actor ∷ seen) rest)
      | take e f u m h ↦ rw (e rest) (
        unseen-Mem a.actor (counted (a.actor ∷ seen) rest) (
            unseen_in a.actor seen (counted (a.actor ∷ seen) rest)
              (counted_unseen (a.actor ∷ seen) rest)),
        counted-Distinct (a.actor ∷ seen) rest,
      )
    ]

    gave :
        (a : Approval)
        → may_count lib requester r a ≡ true
        → has_permission r a ≡ true
        → Gave a.actor a
    unfolding may_count
    gave a may has = record {
      by = refl;
      canonical = ground (arith, eq_iff a.actor (lib.trim_space a.actor));
      named =
          ground
            (arith, eq_iff a.actor (lib.trim_space a.actor), eq_iff (lib.trim_space a.actor) "");
      timed = ground arith;
      not_requester = ground (arith, eq_iff a.actor requester);
      permitted = permission_held r a has;
    }

    counted-GaveOne :
        (seen : List String) (approvals : List Approval)
        → All (GaveOne approvals) (counted seen approvals)
    unfolding counted
    counted-GaveOne seen [] = tt
    counted-GaveOne seen (a ∷ rest) = elim (way seen a) [
      | skip e f ↦
          rw (e rest) (All-map (λ x h. inr h) (counted seen rest) (counted-GaveOne seen rest))
      | mark e f ↦ rw (e rest) (
          All-map (λ x h. inr h) (counted (a.actor ∷ seen) rest)
            (counted-GaveOne (a.actor ∷ seen) rest))
      | take e f u m h ↦ rw (e rest) (
        inl (gave a m h),
        All-map (λ x h. inr h) (counted (a.actor ∷ seen) rest)
            (counted-GaveOne (a.actor ∷ seen) rest),
      )
    ]

    enough :
        (m : ℕ) (approvals : List Approval)
        → r.minimum ≡ pos m
        → check_approvals lib requester r approvals ≡ ok tt
        → m ≤ count_approvals lib requester r [] approvals
    unfolding check_approvals
    enough m approvals e h = ground arith

    -- Where a requirement of distinct actors is satisfied, there are at least as many actors as it
    -- asks for, no two the same: each gave an approval with a time, is canonical and not empty, has
    -- the permission that is required, if any is, among those of that approval, and none is the
    -- requester where that is prohibited.
    pub check_approvals_sound :
        (m : ℕ) (approvals : List Approval)
        → r.minimum ≡ pos m
        → check_approvals lib requester r approvals ≡ ok tt
        → (actors : List String) × (m ≤ length actors)
          × Distinct actors
          × All (GaveOne approvals) actors
    check_approvals_sound m approvals e h = (
      counted [] approvals,
      rw (← length-counted [] approvals) (enough m approvals e h),
      counted-Distinct [] approvals,
      counted-GaveOne [] approvals,
    )
