-- ===== src/Store/Invariant.antt =====
-- The invariant of the job store, which every operation of job_store.go keeps without a panic.
use cue.Base.{
  ℕ, suc, ◌≤◌, ◌<◌, ◌≡◌, ◌≢◌, refl, List, [], ◌∷◌, none, some, String, true, arith, length,
  get_elem?, set, length-set, length-append, lt-length_of_get_elem?, Bool-cases, inl, inr,
}
use cue.Base.Key.{string_key}
use cue.Base.Dict.{lookup, lookup-insert, lookup-erase}
use cue.Model.{Job, zero_job}
use cue.Store.{JobStore, u32_mod, new_job_store, grow, fill_slot, append_slot, freed}
use cue.Store.Slots.{id_at, id_at-set, id_at-append, lt-length_of_id_at, has, Distinct}

pub record IsValid (js : JobStore) : Type 0 where
  pub small : length js.jobs < u32_mod
  pub room : length js.jobs ≤ js.jobs_cap
  -- the index names the slot of each job, and has no entry for the ID of an empty slot
  pub index_sound : (id : String) (i : ℕ) → lookup id js.by_id ≡ some i → id_at js.jobs i ≡ some id
  pub no_empty : lookup "" js.by_id ≡ none
  pub indexed :
      (id : String) (i : ℕ) → id ≢ "" → id_at js.jobs i ≡ some id → lookup id js.by_id ≡ some i
  -- the free list holds exactly the empty slots, each once
  pub free_sound : (i : ℕ) → has i js.free_list ≡ true → id_at js.jobs i ≡ some ""
  pub free_complete : (i : ℕ) → id_at js.jobs i ≡ some "" → has i js.free_list ≡ true
  pub distinct : Distinct js.free_list

pub new_job_store-IsValid : (capacity : ℕ) → IsValid (new_job_store capacity)
unfolding new_job_store lookup
new_job_store-IsValid capacity = record {
  small = omega arith;
  room = omega arith;
  index_sound = λ id i e. ground arith;
  no_empty = refl;
  indexed = λ id i n e. ground arith;
  free_sound = λ i e. ground arith;
  free_complete = λ i e. ground arith;
  distinct = tt;
}

pub fill_slot-IsValid :
    (js : JobStore) (job : Job) (idx : ℕ) (rest : List ℕ)
    → IsValid js
    → job.id ≢ ""
    → lookup job.id js.by_id ≡ none
    → js.free_list ≡ idx ∷ rest
    → IsValid (fill_slot js job idx rest)
unfolding fill_slot
fill_slot-IsValid js job idx rest v named fresh top =
    let at_top : has idx js.free_list ≡ true = ground arith in
    let was = v.free_sound idx at_top in
    let lt = lt-length_of_id_at js.jobs idx "" was in
    let ids = λ (i : ℕ). id_at-set js.jobs idx i job lt in
    let look = λ (id : String). lookup-insert job.id id idx js.by_id in
    let same = λ (id : String). string_key.beq_iff job.id id in
    record {
      small = omega (arith, v.small, length-set js.jobs idx job);
      room = omega (arith, v.room, length-set js.jobs idx job);
      index_sound = λ id i e. ground (arith, ids i, look id, same id, v.index_sound id i);
      no_empty = ground (arith, look "", same "", v.no_empty);
      indexed = λ id i n e. ground (arith, ids i, look id, same id, v.indexed id i);
      free_sound = λ i e. ground (arith, ids i, v.free_sound i, v.distinct);
      free_complete = λ i e. ground (arith, ids i, v.free_complete i);
      distinct = ground (arith, v.distinct);
    }

le-grow : (cap : ℕ) → cap < grow cap
unfolding grow
le-grow cap = ground arith

pub append_slot-IsValid :
    (js : JobStore) (job : Job)
    → IsValid js
    → job.id ≢ ""
    → lookup job.id js.by_id ≡ none
    → suc (length js.jobs) < u32_mod
    → IsValid (append_slot js job (length js.jobs))
unfolding append_slot
append_slot-IsValid js job v named fresh fits =
    let n = length js.jobs in
    let size = length-append js.jobs (job ∷ []) in
    let ids = id_at-append js.jobs job in
    let look = λ (id : String). lookup-insert job.id id n js.by_id in
    let same = λ (id : String). string_key.beq_iff job.id id in
    let inside = λ (i : ℕ) (id : String). lt-length_of_id_at js.jobs i id in
    record {
      small = omega (arith, v.small, size);
      room = ground (arith, v.room, size, le-grow js.jobs_cap);
      index_sound =
          λ id i e. ground (arith, ids i, look id, same id, v.index_sound id i, inside i id);
      no_empty = ground (arith, look "", same "", v.no_empty);
      indexed = λ id i k e. ground (arith, ids i, look id, same id, v.indexed id i);
      free_sound = λ i e. ground (arith, ids i, v.free_sound i, inside i "");
      free_complete = λ i e. ground (arith, ids i, v.free_complete i);
      distinct = v.distinct;
    }

pub freed-IsValid :
    (js : JobStore) (job : Job) (idx : ℕ)
    → IsValid js
    → job.id ≢ ""
    → get_elem? js.jobs idx ≡ some job
    → IsValid (freed js job idx)
unfolding freed
freed-IsValid js job idx v named at =
    let was : id_at js.jobs idx ≡ some job.id = rw at refl in
    let lt = lt-length_of_get_elem? js.jobs idx job at in
    let ids = λ (i : ℕ). id_at-set js.jobs idx i zero_job lt in
    let look = λ (id : String). lookup-erase job.id id js.by_id in
    let same = λ (id : String). string_key.beq_iff job.id id in
    let held = v.indexed job.id idx named was in
    record {
      small = omega (arith, v.small, length-set js.jobs idx zero_job);
      room = omega (arith, v.room, length-set js.jobs idx zero_job);
      index_sound =
          λ id i e. ground (arith, ids i, look id, same id, v.index_sound id i, held, was);
      no_empty = ground (arith, look "", same "", v.no_empty);
      indexed = λ id i n e. ground (arith, ids i, look id, same id, v.indexed id i, was);
      free_sound = λ i e. ground (arith, ids i, v.free_sound i);
      free_complete = λ i e. ground (arith, ids i, v.free_complete i);
      distinct = (
        elim (Bool-cases (has idx js.free_list)) [
          | inl e ↦ absurd (named (ground (arith, v.free_sound idx e)))
          | inr e ↦ e
        ],
        v.distinct,
      );
    }

-- A slot keeps its ID when the rest of its job changes.
abbrev pub rewritten : JobStore → ℕ → Job → JobStore
rewritten js idx job = record js { jobs = set js.jobs idx job }

pub rewritten-IsValid :
    (js : JobStore) (idx : ℕ) (job : Job)
    → IsValid js
    → id_at js.jobs idx ≡ some job.id
    → IsValid (rewritten js idx job)
rewritten-IsValid js idx job v was =
    let lt = lt-length_of_id_at js.jobs idx job.id was in
    let ids = λ (i : ℕ). id_at-set js.jobs idx i job lt in
    record {
      small = omega (arith, v.small, length-set js.jobs idx job);
      room = omega (arith, v.room, length-set js.jobs idx job);
      index_sound = λ id i e. ground (arith, ids i, v.index_sound id i, was);
      no_empty = v.no_empty;
      indexed = λ id i n e. ground (arith, ids i, v.indexed id i, was);
      free_sound = λ i e. ground (arith, ids i, v.free_sound i, was);
      free_complete = λ i e. ground (arith, ids i, v.free_complete i, was);
      distinct = v.distinct;
    }
