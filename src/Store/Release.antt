-- ===== src/Store/Release.antt =====
-- The operations that mark and release jobs, as changes of the map of jobs at one ID.
use native.Mathlib.Nat.{mod-eq_of_lt}
use cue.Base.{
  Bool, ℕ, ◌%◌, ◌≡◌, refl, sym, ap, ◌∙◌, Option, none, some, String, true, false, arith, leb, ◌==◌,
  if◌then◌else◌, length, length-set, get_elem?-set, lt-length_of_get_elem?, Bool-cases,
  Option-cases, is_some, map_option, ◌⊎◌, inl, inr, done,
}
use cue.Base.Key.{string_key, ◌=?◌}
use cue.Base.Dict.{lookup, lookup-erase}
use cue.Model.{Job, zero_job}
use cue.Store.{
  JobStore, u32_mod, freed, release, mark_done, release_if_done, force_release, get_by_id,
}
use cue.Store.Invariant.{IsValid, freed-IsValid, rewritten, rewritten-IsValid}
use cue.Store.Refinement.{Held, lookup-Held, get_by_id-none, get_by_id-Held, get_by_id-same}

pub release-Held :
    (js : JobStore) (id : String) (i : ℕ) (job : Job)
    → IsValid js
    → Held js id i job
    → release js i ≡ done (freed js job i)
unfolding release
release-Held js id i job v h =
    let lt = lt-length_of_get_elem? js.jobs i job h.slot in
    let small : length js.jobs % u32_mod ≡ length js.jobs = mod-eq_of_lt v.small in
    let inside : leb (length js.jobs) i ≡ false = ground arith in
    let named : (job.id =? "") ≡ false = ground (arith, string_key.beq_iff job.id "", h.named) in
    rw (small, inside, h.slot) (rw named refl)

-- Two IDs of the index stand in different slots.
apart :
    (js : JobStore) (id k : String) (i j : ℕ)
    → IsValid js
    → lookup id js.by_id ≡ some i
    → lookup k js.by_id ≡ some j
    → (id =? k) ≡ false
    → (i == j) ≡ false
apart js id k i j v e f other =
    ground (arith, v.index_sound id i e, v.index_sound k j f, string_key.beq_iff id k)

pub get_by_id-freed :
    (js : JobStore) (id : String) (i : ℕ) (job : Job)
    → IsValid js
    → lookup id js.by_id ≡ some i
    → Held js id i job
    → (k : String) → get_by_id (freed js job i) k ≡ (if id =? k then none else get_by_id js k)
unfolding freed
get_by_id-freed js id i job v e h k =
    let v' = freed-IsValid js job i v h.named h.slot in
    elim (Bool-cases (id =? k)) [
      | inl same ↦ rw same (
          get_by_id-none (freed js job i) k
            (ground (arith, lookup-erase job.id k js.by_id, h.name)))
      | inr other ↦ rw other (
          get_by_id-same js (freed js job i) k v v'
            (ground (arith, lookup-erase job.id k js.by_id, h.name))
            λ j f. get_elem?-set js.jobs i j zero_job ∙ rw (apart js id k i j v e f other) refl)
    ]

-- What an operation on the ID `id` makes of the map: it does not panic, keeps the invariant, adds no
-- slot, and has the stated effect on the job of that ID and none on any other.
pub record Changes (js : JobStore) (id : String) (new : Option Job) (js' : JobStore) : Type 0 where
  pub valid : IsValid js'
  pub bound : length js'.jobs ≡ length js.jobs
  pub map_after : (k : String) → get_by_id js' k ≡ (if id =? k then new else get_by_id js k)

pub freed-Changes :
    (js : JobStore) (id : String) (i : ℕ) (job : Job)
    → IsValid js
    → lookup id js.by_id ≡ some i
    → Held js id i job
    → Changes js id none (freed js job i)
unfolding freed
freed-Changes js id i job v e h = record {
  valid = freed-IsValid js job i v h.named h.slot;
  bound = length-set js.jobs i zero_job;
  map_after = get_by_id-freed js id i job v e h;
}

unchanged-Changes : (js : JobStore) (id : String) → IsValid js → Changes js id (get_by_id js id) js
unchanged-Changes js id v = record {
  valid = v;
  bound = refl;
  map_after = λ k. elim (Bool-cases (id =? k)) [
    | inl same ↦ rw (same, (string_key.beq_iff id k).0 same) refl
    | inr other ↦ rw other refl
  ];
}

-- On a well-formed store `ForceRelease` takes the ID out of the map, changes no other job, and
-- reports whether the ID was there.
pub force_release-refines :
    (js : JobStore) (id : String)
    → IsValid js
    → (js' : JobStore) × (force_release js id ≡ done (js', is_some (get_by_id js id)))
      × Changes js id none js'
unfolding force_release
force_release-refines js id v = elim (Option-cases (lookup id js.by_id)) [
  | inl e ↦
      let absent = get_by_id-none js id e in
      (js, rw (e, absent, force_release) refl, rw absent at (unchanged-Changes js id v))
  | inr (i, e) ↦
      let (job, h) = lookup-Held js id i v e in
      (
        freed js job i,
        rw (e, get_by_id-Held js id i job v e h, force_release)
            (rw (release-Held js id i job v h) refl),
        freed-Changes js id i job v e h,
      )
]

-- The job is in the map, and done.
abbrev pub is_done_job : Option Job → Bool
is_done_job none = false
is_done_job (some job) = job.is_done

-- On a well-formed store `ReleaseIfDone` takes the ID out of the map, and no other, if its job is done;
-- otherwise it changes nothing. It reports which.
pub release_if_done-refines :
    (js : JobStore) (id : String)
    → IsValid js
    → ((is_done_job (get_by_id js id) ≡ true)
        × (js' : JobStore) × (release_if_done js id ≡ done (js', true))
        × Changes js id none js')
      ⊎ ((is_done_job (get_by_id js id) ≡ false) × (release_if_done js id ≡ done (js, false)))
unfolding release_if_done
release_if_done-refines js id v = elim (Option-cases (lookup id js.by_id)) [
  | inl e ↦ inr (rw (get_by_id-none js id e) refl, rw (e, release_if_done) refl)
  | inr (i, e) ↦
      let (job, h) = lookup-Held js id i v e in
      let there = get_by_id-Held js id i job v e h in
      elim (Bool-cases job.is_done) [
        | inl d ↦ inl (
          ap is_done_job there ∙ d,
          freed js job i,
          rw (e, release_if_done) (rw (h.slot) (rw (d, release-Held js id i job v h) refl)),
          freed-Changes js id i job v e h,
        )
        | inr d ↦ inr (ap is_done_job there ∙ d, rw (e, release_if_done) (rw h.slot (rw d refl)))
      ]
]

abbrev pub finished : Job → Job
finished job = record job { is_done = true }

rewritten-Changes :
    (js : JobStore) (id : String) (i : ℕ) (job : Job)
    → IsValid js
    → lookup id js.by_id ≡ some i
    → Held js id i job
    → Changes js id (some (finished job)) (rewritten js i (finished job))
rewritten-Changes js id i job v e h =
    let lt = lt-length_of_get_elem? js.jobs i job h.slot in
    let v' = rewritten-IsValid js i (finished job) v (rw h.slot refl) in
    record {
      valid = v';
      bound = length-set js.jobs i (finished job);
      map_after = λ k. elim (Bool-cases (id =? k)) [
        | inl same ↦
            let name = (string_key.beq_iff id k).0 same in
            rw same (
              get_by_id-Held (rewritten js i (finished job)) k i (finished job) v' (rw (← name) e)
                (record {
                  slot = get_elem?-set js.jobs i i (finished job) ∙ ground arith;
                  name = h.name ∙ name;
                  named = h.named;
                }))
        | inr other ↦ rw other (
            get_by_id-same js (rewritten js i (finished job)) k v v' refl λ j f.
              get_elem?-set js.jobs i j (finished job)
              ∙ ground (arith, apart js id k i j v e f other))
      ];
    }

-- On a well-formed store `MarkDone` sets the job's flag, changes no other job, and reports whether
-- the ID was in the map.
pub mark_done-refines :
    (js : JobStore) (id : String)
    → IsValid js
    → (js' : JobStore) × (mark_done js id ≡ done (js', is_some (get_by_id js id)))
      × Changes js id (map_option finished (get_by_id js id)) js'
unfolding mark_done
mark_done-refines js id v = elim (Option-cases (lookup id js.by_id)) [
  | inl e ↦
      let absent = get_by_id-none js id e in
      (
        js,
        rw (e, absent, mark_done) refl,
        rw (ap (map_option finished) absent ∙ sym absent) (unchanged-Changes js id v),
      )
  | inr (i, e) ↦
      let (job, h) = lookup-Held js id i v e in
      let there = get_by_id-Held js id i job v e h in
      (
        rewritten js i (finished job),
        rw (e, there, mark_done) (rw h.slot refl),
        rw there (rewritten-Changes js id i job v e h),
      )
]
