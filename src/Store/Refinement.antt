-- ===== src/Store/Refinement.antt =====
-- The job store as a map from job IDs to jobs, read by `GetByID`: each operation changes the map at
-- one ID, without a panic.
use native.Mathlib.Nat.{mod-eq_of_lt}
use cue.Base.{
  ℕ, suc, ◌%◌, ◌≤◌, ◌<◌, ◌≡◌, ◌≢◌, refl, sym, ap, ◌∙◌, List, [], ◌∷◌, none, some, String, true,
  false, arith, leb, ◌==◌, if◌then◌else◌, length, get_elem?, length-set, length-append,
  get_elem?-set, get_elem?-append, lt-length_of_get_elem?, get_elem?-within, Bool-cases,
  Option-cases, ◌⊎◌, inl, inr, ok, err, done,
}
use cue.Base.Key.{string_key, ◌=?◌}
use cue.Base.Dict.{lookup, lookup-insert}
use cue.Model.{Job}
use cue.Store.{
  JobStore, u32_mod, fill_slot, append_slot, place, create, get, get_by_id, duplicate_job_id,
}
use cue.Store.Slots.{id_at, lt-length_of_id_at, has}
use cue.Store.Invariant.{IsValid, fill_slot-IsValid, append_slot-IsValid}

-- What the index says of an ID that it holds.
pub record Held (js : JobStore) (id : String) (i : ℕ) (job : Job) : Type 0 where
  pub slot : get_elem? js.jobs i ≡ some job
  pub name : job.id ≡ id
  pub named : job.id ≢ ""

pub lookup-Held :
    (js : JobStore) (id : String) (i : ℕ)
    → IsValid js
    → lookup id js.by_id ≡ some i
    → (job : Job) × Held js id i job
lookup-Held js id i v e =
    let there = v.index_sound id i e in
    let (job, at) = get_elem?-within js.jobs i (lt-length_of_id_at js.jobs i id there) in
    let name : job.id ≡ id = ground arith in
    (
      job,
      record {
        slot = at;
        name = name;
        named = λ h.
            ground (arith, v.no_empty, sym name ∙ h, ap (λ s. lookup s js.by_id) (sym name ∙ h));
      },
    )

pub get_by_id-none :
    (js : JobStore) (id : String) → lookup id js.by_id ≡ none → get_by_id js id ≡ none
unfolding get_by_id
get_by_id-none js id e = rw (e, get_by_id) refl

pub get-Held :
    (js : JobStore) (id : String) (i : ℕ) (job : Job)
    → IsValid js
    → Held js id i job
    → get js i ≡ some job
unfolding get
get-Held js id i job v h =
    let lt = lt-length_of_get_elem? js.jobs i job h.slot in
    let small : length js.jobs % u32_mod ≡ length js.jobs = mod-eq_of_lt v.small in
    let inside : leb (length js.jobs) i ≡ false = ground arith in
    let named : (job.id =? "") ≡ false = ground (arith, string_key.beq_iff job.id "", h.named) in
    rw (small, inside, h.slot) (rw named refl)

pub get_by_id-Held :
    (js : JobStore) (id : String) (i : ℕ) (job : Job)
    → IsValid js
    → lookup id js.by_id ≡ some i
    → Held js id i job
    → get_by_id js id ≡ some job
unfolding get_by_id
get_by_id-Held js id i job v e h = rw (e, get_by_id) (get-Held js id i job v h)

-- Where neither the index nor the slot behind it changes, neither does the map.
pub get_by_id-same :
    (js js' : JobStore) (id : String)
    → IsValid js
    → IsValid js'
    → lookup id js'.by_id ≡ lookup id js.by_id
    → ((i : ℕ) → lookup id js.by_id ≡ some i → get_elem? js'.jobs i ≡ get_elem? js.jobs i)
    → get_by_id js' id ≡ get_by_id js id
get_by_id-same js js' id v v' look slot = elim (Option-cases (lookup id js.by_id)) [
  | inl e ↦ get_by_id-none js' id (look ∙ e) ∙ sym (get_by_id-none js id e)
  | inr (i, e) ↦
      let (job, h) = lookup-Held js id i v e in
      let h' : Held js' id i job = record {
        slot = slot i e ∙ h.slot;
        name = h.name;
        named = h.named;
      } in
      get_by_id-Held js' id i job v' (look ∙ e) h' ∙ sym (get_by_id-Held js id i job v e h)
]

pub lookup-none_of_get_by_id :
    (js : JobStore) (id : String) → IsValid js → get_by_id js id ≡ none → lookup id js.by_id ≡ none
lookup-none_of_get_by_id js id v e = elim (Option-cases (lookup id js.by_id)) [
  | inl h ↦ h
  | inr (i, h) ↦
      let (job, held) = lookup-Held js id i v h in
      absurd (ground (arith, get_by_id-Held js id i job v h held))
]

-- The store after one more job: the map has it under its ID, and a slot that was empty holds it.
pub record Created (js : JobStore) (job : Job) (idx : ℕ) (js' : JobStore) : Type 0 where
  pub valid : IsValid js'
  pub slot : (i : ℕ) → get_elem? js'.jobs i ≡ (if idx == i then some job else get_elem? js.jobs i)
  pub index :
      (k : String) → lookup k js'.by_id ≡ (if job.id =? k then some idx else lookup k js.by_id)
  pub vacant : (k : String) → id_at js.jobs idx ≡ some k → k ≡ ""
  pub bound : length js'.jobs ≤ suc (length js.jobs)

fill_slot-Created :
    (js : JobStore) (job : Job) (idx : ℕ) (rest : List ℕ)
    → IsValid js
    → job.id ≢ ""
    → lookup job.id js.by_id ≡ none
    → js.free_list ≡ idx ∷ rest
    → (place js job js.free_list ≡ done (fill_slot js job idx rest, idx))
      × Created js job idx (fill_slot js job idx rest)
unfolding place fill_slot
fill_slot-Created js job idx rest v named fresh top =
    let at_top : has idx js.free_list ≡ true = ground arith in
    let was = v.free_sound idx at_top in
    let lt = lt-length_of_id_at js.jobs idx "" was in
    let (slot, at) = get_elem?-within js.jobs idx lt in
    let is_empty : (slot.id =? "") ≡ true = (string_key.beq_iff slot.id "").1 (ground arith) in
    (
      rw (top, at, place) (rw (is_empty) refl),
      record {
        valid = fill_slot-IsValid js job idx rest v named fresh top;
        slot = λ i. ground (arith, get_elem?-set js.jobs idx i job);
        index = λ k. lookup-insert job.id k idx js.by_id;
        vacant = λ k e. ground arith;
        bound = omega (arith, length-set js.jobs idx job);
      },
    )

append_slot-Created :
    (js : JobStore) (job : Job)
    → IsValid js
    → job.id ≢ ""
    → lookup job.id js.by_id ≡ none
    → suc (length js.jobs) < u32_mod
    → js.free_list ≡ []
    → (place js job js.free_list ≡ done (append_slot js job (length js.jobs), length js.jobs))
      × Created js job (length js.jobs) (append_slot js job (length js.jobs))
unfolding place append_slot
append_slot-Created js job v named fresh fits top =
    let small : length js.jobs % u32_mod ≡ length js.jobs = mod-eq_of_lt v.small in
    (
      ap (place js job) top ∙ ap (λ n. done (append_slot js job n, n)) small,
      record {
        valid = append_slot-IsValid js job v named fresh fits;
        slot = λ i. ground (arith, get_elem?-append js.jobs job i);
        index = λ k. lookup-insert job.id k (length js.jobs) js.by_id;
        vacant = λ k e. absurd (omega (arith, lt-length_of_id_at js.jobs (length js.jobs) k e));
        bound = omega (arith, length-append js.jobs (job ∷ []));
      },
    )

place-Created :
    (js : JobStore) (job : Job) (free : List ℕ)
    → IsValid js
    → job.id ≢ ""
    → lookup job.id js.by_id ≡ none
    → suc (length js.jobs) < u32_mod
    → js.free_list ≡ free
    → (idx : ℕ) × (js' : JobStore) × (place js job js.free_list ≡ done (js', idx))
      × Created js job idx js'
place-Created js job [] v named fresh fits top =
    let (e, c) = append_slot-Created js job v named fresh fits top in
    (length js.jobs, append_slot js job (length js.jobs), e, c)
place-Created js job (idx ∷ rest) v named fresh fits top =
    let (e, c) = fill_slot-Created js job idx rest v named fresh top in
    (idx, fill_slot js job idx rest, e, c)

-- A job under a new ID gets a slot.
pub create-Created :
    (js : JobStore) (job : Job)
    → IsValid js
    → job.id ≢ ""
    → suc (length js.jobs) < u32_mod
    → get_by_id js job.id ≡ none
    → (idx : ℕ) × (js' : JobStore) × (create js job ≡ done (js', ok idx)) × Created js job idx js'
unfolding create
create-Created js job v named fits absent =
    let fresh = lookup-none_of_get_by_id js job.id v absent in
    let (idx, js', e, c) = place-Created js job js.free_list v named fresh fits refl in
    (idx, js', rw (fresh, create) (rw e refl), c)

pub get_by_id-Created :
    (js : JobStore) (job : Job) (idx : ℕ) (js' : JobStore)
    → IsValid js
    → job.id ≢ ""
    → Created js job idx js'
    → (k : String) → get_by_id js' k ≡ (if job.id =? k then some job else get_by_id js k)
get_by_id-Created js job idx js' v named c k = elim (Bool-cases (job.id =? k)) [
  | inl same ↦
      let name = (string_key.beq_iff job.id k).0 same in
      rw same (
        get_by_id-Held js' k idx job c.valid (c.index k ∙ rw same refl)
          (record { slot = c.slot idx ∙ ground arith; name = name; named = named }))
  | inr other ↦ rw other (
      get_by_id-same js js' k v c.valid (c.index k ∙ rw other refl)
        λ i e. c.slot i ∙ ground (arith, c.vacant k, v.index_sound k i e, v.no_empty))
]

-- On a well-formed store with fewer than 2^32 - 1 slots, `Create` of a job with an ID refines an
-- insertion into the map of jobs: an ID that the map holds is refused and nothing changes; any
-- other is entered, all other IDs keep their jobs, and the store stays well formed.
pub create-refines :
    (js : JobStore) (job : Job)
    → IsValid js
    → job.id ≢ ""
    → suc (length js.jobs) < u32_mod
    → ((old : Job) × (get_by_id js job.id ≡ some old)
        × (create js job ≡ done (js, err duplicate_job_id)))
      ⊎ ((idx : ℕ) × (js' : JobStore) × (get_by_id js job.id ≡ none)
          × (create js job ≡ done (js', ok idx))
          × IsValid js'
          × ((k : String) → get_by_id js' k ≡ (if job.id =? k then some job else get_by_id js k)))
unfolding create
create-refines js job v named fits = elim (Option-cases (lookup job.id js.by_id)) [
  | inl e ↦
      let absent = get_by_id-none js job.id e in
      let (idx, js', made, c) = create-Created js job v named fits absent in
      inr (idx, js', absent, made, c.valid, get_by_id-Created js job idx js' v named c)
  | inr (i, e) ↦
      let (old, h) = lookup-Held js job.id i v e in
      inl (old, get_by_id-Held js job.id i old v e h, rw (e, create) refl)
]
