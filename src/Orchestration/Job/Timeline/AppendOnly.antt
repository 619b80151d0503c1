-- ===== src/Orchestration/Job/Timeline/AppendOnly.antt =====
-- The in-memory timeline (internal/orchestration/job/timeline_memory.go) only grows.
use control_center_stable.Prelude.{
  ℕ, ap, ◌∷◌, String, ◌≡◌, ◌≢◌, refl, Option, none, some, true, false, arith, eq_iff, ok, err,
  Result, ◌⊎◌, Bool, Context, ◌==◌, Bool-cases, Option-cases, Result-cases, inl, inr,
}
use control_center_stable.Prelude.Map.{lookup, map_laws}
use control_center_stable.Prelude.Library.{Library}
use control_center_stable.Orchestration.Job.Model.{
  Error, timeline_conflict, Status, status_eq, other,
}
use control_center_stable.Orchestration.Job.TimelineEntries.{
  TimelineEntry, validate_timeline_entry, TimelineEvent, unknown,
}
use control_center_stable.Orchestration.Job.Timeline.{
  TimelineRepository, Versions, at_version, versions_or_empty, append, append_locked, entry_eq,
  event_eq,
}

-- The entry of a job's version.
abbrev pub entry_at : TimelineRepository → String → ℕ → Option TimelineEntry
entry_at r id version = at_version version (versions_or_empty (lookup id r.entries))

status_eq_sound : (a b : Status) → status_eq a b ≡ true → a ≡ b
status_eq_sound (other s) (other t) h = ap other ((eq_iff s t).0 h)
status_eq_sound (other s) b h = ground arith
status_eq_sound a b h = ground arith

status_eq_refl : (a : Status) → status_eq a a ≡ true
status_eq_refl (other s) = (eq_iff s s).1 refl
status_eq_refl a = refl

event_eq_refl : (a : TimelineEvent) → event_eq a a ≡ true
event_eq_refl (unknown s) = (eq_iff s s).1 refl
event_eq_refl a = refl

event_eq_sound : (a b : TimelineEvent) → event_eq a b ≡ true → a ≡ b
event_eq_sound (unknown s) (unknown t) h = ap unknown ((eq_iff s t).0 h)
event_eq_sound (unknown s) b h = ground arith
event_eq_sound a b h = ground arith

entry_eq_refl : (a : TimelineEntry) → entry_eq a a ≡ true
unfolding entry_eq
entry_eq_refl a =
    ground (arith, eq_iff a.job_id a.job_id, event_eq_refl a.event, status_eq_refl a.status)

entry_eq_sound : (a b : TimelineEntry) → entry_eq a b ≡ true → a ≡ b
unfolding entry_eq
entry_eq_sound a b h = ground (
  arith,
  eq_iff a.job_id b.job_id,
  event_eq_sound a.event b.event,
  status_eq_sound a.status b.status,
)

grown :
    (versions : Versions) (v w : ℕ) (entry old : TimelineEntry)
    → at_version v versions ≡ none
    → at_version w versions ≡ some old
    → at_version w ((v, entry) ∷ versions) ≡ some old
unfolding at_version
grown versions v w entry old fresh h = ground arith

append_locked_keeps :
    (r : TimelineRepository) (entry old : TimelineEntry) (id : String) (version : ℕ)
    → entry_at r id version ≡ some old
    → entry_at (append_locked entry r).1 id version ≡ some old
unfolding append_locked
append_locked_keeps r entry old id version h =
    elim (Option-cases (entry_at r entry.job_id entry.job_version)) [
      | inl fresh ↦
          rw (fresh, append_locked)
            (simp map_laws (elim (Bool-cases (entry.job_id == id)) [
              | inl same ↦
                  let q : entry.job_id ≡ id = (eq_iff entry.job_id id).0 same in
                  let h' : entry_at r entry.job_id version ≡ some old = rw q h in
                  rw same (
                    grown (versions_or_empty (lookup entry.job_id r.entries)) entry.job_version
                      version entry old fresh h')
              | inr differs ↦ rw differs h
            ]))
      | inr (existing, e) ↦
          rw (e, append_locked)
            (elim (Bool-cases (entry_eq existing entry)) [
              | inl same ↦ rw same h
              | inr differs ↦ rw differs h
            ])
    ]

-- An entry once recorded for a version of a job is never changed, whatever is appended.
pub append_keeps :
    (lib : Library) (ctx : Context) (r : TimelineRepository) (entry old : TimelineEntry)
    (id : String) (version : ℕ)
    → entry_at r id version ≡ some old
    → entry_at (append lib ctx entry r).1 id version ≡ some old
unfolding append
append_keeps lib (some e) r entry old id version h = h
append_keeps lib none r entry old id version h =
    elim (Result-cases (validate_timeline_entry lib entry)) [
      | inl (u, passed) ↦ rw passed (append_locked_keeps r entry old id version h)
      | inr (e, refused) ↦ rw refused h
    ]

-- What an append returns and leaves, by the entry that the repository has for the version.
abbrev pub Appended :
    TimelineRepository
    → TimelineEntry
    → Option TimelineEntry
    → Result Error Bool × TimelineRepository
    → Type 0
Appended r entry none result =
    (result.0 ≡ ok true) × (entry_at result.1 entry.job_id entry.job_version ≡ some entry)
Appended r entry (some old) result =
    ((old ≡ entry) × (result ≡ (ok false, r)))
    ⊎ ((old ≢ entry) × (result ≡ (err timeline_conflict, r)))

entry_differs : (a b : TimelineEntry) → entry_eq a b ≡ false → a ≢ b
entry_differs a b h e = clash (entry_eq a b) (rw e (entry_eq_refl b)) h
  where
    clash : (b : Bool) → b ≡ true → b ≡ false → ⊥
    clash b h k = cc

-- A valid entry for a version of a job that has none is recorded; the entry that is there already
-- is no error and changes nothing; an entry other than the one that is there is a conflict and
-- changes nothing.
pub append-Appended :
    (lib : Library) (r : TimelineRepository) (entry : TimelineEntry)
    → validate_timeline_entry lib entry ≡ ok tt
    → Appended r entry (entry_at r entry.job_id entry.job_version) (append lib none entry r)
unfolding append append_locked
append-Appended lib r entry v = elim (Option-cases (entry_at r entry.job_id entry.job_version)) [
  | inl e ↦
      rw (v, e, append_locked)
        (
          refl,
          simp map_laws (unfold at_version in ground (arith, eq_iff entry.job_id entry.job_id)),
        )
  | inr (old, e) ↦
      rw (v, e, append_locked)
        (elim (Bool-cases (entry_eq old entry)) [
          | inl same ↦ inl (entry_eq_sound old entry same, rw same)
          | inr differs ↦ inr (entry_differs old entry differs, rw differs)
        ])
]
