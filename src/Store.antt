-- ===== src/Store.antt =====
-- internal/state/job_store.go: the jobs of a partition, in slots that are used again.
-- The head of `free_list` is the end of the Go slice. `jobs_cap` is `cap(js.jobs)`; a slot number is
-- a `uint32`, so the length of the slice is taken modulo 2^32 where the code converts it.
pub mod Slots
pub mod Invariant
pub mod Refinement
pub mod Release
pub mod Emptied
pub mod Example
mod Tests
use cue.Base.{
  ℕ, suc, ◌+◌, ◌*◌, ◌/◌, ◌%◌, Bool, true, false, List, [], ◌∷◌, ◌++◌, Option, none, some, String,
  ltb, leb, if◌then◌else◌, length, get_elem?, set, Result, ok, err, Run, done, panics, ◌>>=◌,
}
use cue.Base.Key.{string_key, ◌=?◌}
use cue.Base.Dict.{Dict, lookup, insert, erase}
use cue.Model.{Job, zero_job}

pub record JobStore : Type 0 where
  pub jobs : List Job
  pub free_list : List ℕ
  pub by_id : Dict String ℕ
  pub capacity : ℕ
  pub jobs_cap : ℕ

-- `internal.ErrDuplicateJobID`
pub data StoreError : Type 0 where
  duplicate_job_id : StoreError

abbrev pub u32_mod : ℕ
u32_mod = 0x100000000

unfoldable pub new_job_store : ℕ → JobStore
new_job_store capacity = record {
  jobs = [];
  free_list = [];
  by_id = [];
  capacity = capacity;
  jobs_cap = capacity;
}

-- The capacity of the larger slice.
unfoldable pub grow : ℕ → ℕ
grow cap =
    let half_more = cap * 3 / 2 in
    let new_cap = if ltb half_more (cap + 1024) then cap + 1024 else half_more in
    if ltb new_cap 1024 then 1024 else new_cap

-- `Create` where a freed slot is used.
unfoldable pub fill_slot : JobStore → Job → ℕ → List ℕ → JobStore
fill_slot js job idx rest = record js {
  jobs = set js.jobs idx job;
  free_list = rest;
  by_id = insert job.id idx js.by_id;
}

-- `Create` where the slice is extended.
unfoldable pub append_slot : JobStore → Job → ℕ → JobStore
append_slot js job idx = record js {
  jobs = js.jobs ++ job ∷ [];
  by_id = insert job.id idx js.by_id;
  jobs_cap = if leb js.jobs_cap idx then grow js.jobs_cap else js.jobs_cap;
}

-- `Create`, behind its test for a duplicate.
unfoldable pub place : JobStore → Job → List ℕ → Run (JobStore × ℕ)
unfolding fill_slot append_slot
place js job [] = let idx = length js.jobs % u32_mod in done (append_slot js job idx, idx)
place js job (idx ∷ rest) = elim (get_elem? js.jobs idx) [
  | none ↦ panics
  | some slot ↦ if slot.id =? "" then done (fill_slot js job idx rest, idx) else panics
]

-- `Create`
unfoldable pub create : JobStore → Job → Run (JobStore × Result StoreError ℕ)
unfolding place
create js job = elim (lookup job.id js.by_id) [
  | some idx ↦ done (js, err duplicate_job_id)
  | none ↦ place js job js.free_list >>= λ (js', idx). done (js', ok idx)
]

unfoldable pub freed : JobStore → Job → ℕ → JobStore
freed js job idx = record js {
  jobs = set js.jobs idx zero_job;
  free_list = idx ∷ js.free_list;
  by_id = erase job.id js.by_id;
}

-- `Release`
unfoldable pub release : JobStore → ℕ → Run JobStore
unfolding freed
release js idx =
    if leb (length js.jobs % u32_mod) idx then done js else elim (get_elem? js.jobs idx) [
      | none ↦ panics
      | some job ↦ if job.id =? "" then panics else done (freed js job idx)
    ]

-- `MarkDone`
unfoldable pub mark_done : JobStore → String → Run (JobStore × Bool)
mark_done js job_id = elim (lookup job_id js.by_id) [
  | none ↦ done (js, false)
  | some idx ↦ elim (get_elem? js.jobs idx) [
    | none ↦ panics
    | some job ↦ done (record js { jobs = set js.jobs idx (record job { is_done = true }) }, true)
  ]
]

-- `ReleaseIfDone`
unfoldable pub release_if_done : JobStore → String → Run (JobStore × Bool)
unfolding release
release_if_done js job_id = elim (lookup job_id js.by_id) [
  | none ↦ done (js, false)
  | some idx ↦ elim (get_elem? js.jobs idx) [
    | none ↦ panics
    | some job ↦
        if job.is_done then (release js idx >>= λ js'. done (js', true)) else done (js, false)
  ]
]

-- `ForceRelease`
unfoldable pub force_release : JobStore → String → Run (JobStore × Bool)
unfolding release
force_release js job_id = elim (lookup job_id js.by_id) [
  | none ↦ done (js, false)
  | some idx ↦ release js idx >>= λ js'. done (js', true)
]

-- `Get`: nil for a slot that is out of range or released.
unfoldable pub get : JobStore → ℕ → Option Job
get js idx = if leb (length js.jobs % u32_mod) idx then none else elim (get_elem? js.jobs idx) [
  | none ↦ none
  | some job ↦ if job.id =? "" then none else some job
]

-- `IsDone`
unfoldable pub is_done : JobStore → String → Run Bool
is_done js job_id = elim (lookup job_id js.by_id) [
  | none ↦ done false
  | some idx ↦ elim (get_elem? js.jobs idx) [ none ↦ panics | some job ↦ done job.is_done ]
]

-- `Len`
unfoldable pub len : JobStore → ℕ
len js = length js.jobs

-- `GetIndexByID`
unfoldable pub get_index_by_id : JobStore → String → Option ℕ
get_index_by_id js job_id = lookup job_id js.by_id

-- `GetByID`
unfoldable pub get_by_id : JobStore → String → Option Job
unfolding get
get_by_id js job_id = elim (lookup job_id js.by_id) [ none ↦ none | some idx ↦ get js idx ]
