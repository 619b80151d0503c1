-- ===== src/Orchestration/Policy/Permissions.antt =====
-- What `contains` of internal/orchestration/policy/policy.go finds, a search on a sorted copy.
use mathlib.Core.List.{Memᴰ}
use control_center_stable.Prelude.{
  String, ◌≡◌, sym, List, [], ◌∷◌, true, false, ◌⊎◌, inl, inr, some, ◌==◌, eq_iff, arith,
  Bool-cases, Option-cases,
}
use control_center_stable.Prelude.Library.{text_before, sort_slice}
use control_center_stable.Prelude.Sorting.{sort_slice-Mem}
use control_center_stable.Orchestration.Policy.{
  ApprovalRequirement, Approval, has_permission, contains, search_strings,
}

search_strings-Mem :
    (xs : List String) (wanted found : String)
    → search_strings xs wanted ≡ some found
    → Memᴰ found xs
unfolding search_strings
search_strings-Mem [] wanted found h = cc
search_strings-Mem (x ∷ xs) wanted found h = elim (Bool-cases (text_before x wanted)) [
  | inl before ↦ Memᴰ.tail (search_strings-Mem xs wanted found (rw before at h))
  | inr here ↦ let e : x ≡ found = ground arith in Memᴰ.head (sym e)
]

-- What the search on a sorted copy finds is an element.
contains-Mem :
    (values : List String) (wanted : String) → contains values wanted ≡ true → Memᴰ wanted values
unfolding contains
contains-Mem values wanted h =
    let sorted = sort_slice text_before values in
    elim (Option-cases (search_strings sorted wanted)) [
      | inl missing ↦ let e : false ≡ true = rw (missing, contains) at h in cc
      | inr (found, e) ↦
          let same : found ≡ wanted = (eq_iff found wanted).0 (rw (e, contains) at h) in
          sort_slice-Mem text_before wanted values
            (rw (← same) (search_strings-Mem sorted wanted found e))
    ]

-- An approval that the code finds permitted has the permission, where one is required.
pub permission_held :
    (r : ApprovalRequirement) (a : Approval)
    → has_permission r a ≡ true
    → (r.permission ≡ "") ⊎ Memᴰ r.permission a.permissions
unfolding has_permission
permission_held r a h = elim (Bool-cases (r.permission == "")) [
  | inl none_asked ↦ inl ((eq_iff r.permission "").0 none_asked)
  | inr asked ↦ inr (contains-Mem a.permissions r.permission (rw asked at h))
]
