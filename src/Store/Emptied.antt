-- ===== src/Store/Emptied.antt =====
-- A release only empties slots, whatever the state of the store.
use cue.Base.{
  ℕ, ◌%◌, ◌≡◌, ◌≢◌, refl, ap, ◌∙◌, Bool, none, some, arith, leb, ◌==◌, if◌then◌else◌, length,
  get_elem?, length-set, get_elem?-set, Bool-cases, Option-cases, ◌⊎◌, inl, inr, done, panics,
}
use cue.Base.Key.{string_key, ◌=?◌}
use cue.Model.{Job, zero_job}
use cue.Base.{String}
use cue.Base.Dict.{lookup}
use cue.Store.{JobStore, u32_mod, get, release, freed, force_release}

-- The slots after a release.
pub get-freed :
    (js : JobStore) (job : Job) (i j : ℕ)
    → get (freed js job i) j ≡ (if i == j then none else get js j)
unfolding get freed
get-freed js job i j =
    rw (length-set js.jobs i zero_job, get_elem?-set js.jobs i j zero_job)
      (ground (arith, string_key.beq_iff "" ""))

pub release-cases :
    (js : JobStore) (i : ℕ)
    → (release js i ≡ done js)
      ⊎ ((release js i ≡ panics) ⊎ ((job : Job) × (release js i ≡ done (freed js job i))))
unfolding release
release-cases js i = elim (Bool-cases (leb (length js.jobs % u32_mod) i)) [
  | inl e ↦ inl (rw e refl)
  | inr e ↦ elim (Option-cases (get_elem? js.jobs i)) [
    | inl f ↦ inr (inl (rw (e, f) refl))
    | inr (job, f) ↦ elim (Bool-cases (job.id =? "")) [
      | inl g ↦ inr (inl (rw (e, f) (rw g refl)))
      | inr g ↦ inr (inr (job, rw (e, f) (rw g refl)))
    ]
  ]
]

-- A job that `Get` returns can be released.
pub release-get :
    (js : JobStore) (i : ℕ) (job : Job)
    → get js i ≡ some job
    → (get_elem? js.jobs i ≡ some job) × (job.id ≢ "") × (release js i ≡ done (freed js job i))
unfolding release get
release-get js i job h = elim (Bool-cases (leb (length js.jobs % u32_mod) i)) [
  | inl e ↦ absurd (ground arith)
  | inr e ↦ elim (Option-cases (get_elem? js.jobs i)) [
    | inl f ↦ absurd (ground arith)
    | inr (job', f) ↦ elim (Bool-cases (job'.id =? "")) [
      | inl g ↦ absurd (ground arith)
      | inr g ↦
          let same : job' ≡ job = ground arith in
          (
            f ∙ ap some same,
            rw (← same) (λ k. ground (arith, string_key.beq_iff job'.id "")),
            rw (← same) (rw (e, f) (rw g refl)),
          )
    ]
  ]
]

-- `ForceRelease` leaves each slot as it was, or empties it.
pub force_release-slots :
    (js : JobStore) (id : String) (j : ℕ) {js' : JobStore} {released : Bool}
    → force_release js id ≡ done (js', released)
    → (get js' j ≡ get js j) ⊎ (get js' j ≡ none)
unfolding force_release
force_release-slots js id j {js'} h = elim (Option-cases (lookup id js.by_id)) [
  | inl e ↦ inl (ground arith)
  | inr (i, e) ↦ elim (release-cases js i) [
    | inl r ↦ inl (ground arith)
    | inr (inl r) ↦ absurd (ground arith)
    | inr (inr (job, r)) ↦
        let same : js' ≡ freed js job i = ground arith in
        rw same (elim (Bool-cases (i == j)) [
          | inl k ↦ inr (get-freed js job i j ∙ rw k refl)
          | inr k ↦ inl (get-freed js job i j ∙ rw k refl)
        ])
  ]
]
