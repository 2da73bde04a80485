-- ===== src/Partition/Admission.antt =====
-- `handleAddJobs`: what becomes of each job of the command.
use cue.Base.{
  ℕ, suc, ◌≤◌, ◌<◌, ◌≡◌, ◌≢◌, refl, sym, ap, subst, ◌∙◌, ◌⊎◌, inl, inr, true, false, List, [], ◌∷◌,
  none, some, String, is_some, if◌then◌else◌, length, ok, err, Run, done, Bool-cases, arith,
}
use cue.Base.Key.{string_key, ◌=?◌, =?_refl}
use cue.Base.Dict.{lookup}
use cue.Model.{Job, JobFailure, fail_queue_full}
use cue.Queue.{added}
use cue.Queue.Shape
use cue.Queue.Shape.{add_new_job-cases, added-IsValid}
use cue.Store.{JobStore, u32_mod, create, freed, get, get_by_id, duplicate_job_id}
use cue.Store.Invariant
use cue.Store.Refinement.{Held, Created, create-Created, get_by_id-Created, create-refines}
use cue.Store.Release.{Changes, release-Held, freed-Changes}
use cue.Partition.State.{Partition, Env}
use cue.Partition.Commands.{stamped, new_ref, enqueue, admit, add_job}

-- The store and the queue of the partition are well formed.
pub record IsValid (p : Partition) : Type 0 where
  pub store : Invariant.IsValid p.job_store
  pub queue : Shape.IsValid p.process_queue

-- What the command makes of one job that is new and not done: it enters the store, and a
-- reference to its slot enters the queue.
pub record Admitted (env : Env) (p : Partition) (new : Job) (p' : Partition) : Type 0 where
  pub valid : IsValid p'
  pub room : p.process_queue.live_count < length p.process_queue.records
  pub idx : ℕ
  pub referenced : get p'.job_store idx ≡ some new
  pub queued : p'.process_queue ≡ added p.process_queue (new_ref env idx)
  pub stored :
      (k : String)
      → get_by_id p'.job_store k ≡ (if new.id =? k then some new else get_by_id p.job_store k)
  pub bound : length p'.job_store.jobs ≤ suc (length p.job_store.jobs)

-- Or the queue is full, and the store ends with the jobs that it had.
pub record Refused (p : Partition) (p' : Partition) : Type 0 where
  pub valid : IsValid p'
  pub full : length p.process_queue.records ≤ p.process_queue.live_count
  pub same_queue : p'.process_queue ≡ p.process_queue
  pub stored : (k : String) → get_by_id p'.job_store k ≡ get_by_id p.job_store k
  pub bound : length p'.job_store.jobs ≤ suc (length p.job_store.jobs)

-- The two ends of the loop's body for a new job.
abbrev pub Outcome : Env → Partition → Job → String → Run (Partition × List JobFailure) → Type 0
Outcome env p new id r =
    ((p' : Partition) × (r ≡ done (p', [])) × Admitted env p new p')
    ⊎ ((p' : Partition) × (r ≡ done (p', record { job_id = id; reason = fail_queue_full } ∷ []))
        × Refused p p')

get_by_id-slot :
    (js : JobStore) (id : String) (idx : ℕ)
    → lookup id js.by_id ≡ some idx
    → get_by_id js id ≡ get js idx
unfolding get_by_id
get_by_id-slot js id idx e = rw (e, get_by_id) refl

module _ (env : Env) (p : Partition) (job new : Job) (v : IsValid p) (named : new.id ≢ "")
    (absent : get_by_id p.job_store new.id ≡ none) (idx : ℕ) (js : JobStore)
    (c : Created p.job_store new idx js) where
  map_after :
      (k : String) → get_by_id js k ≡ (if new.id =? k then some new else get_by_id p.job_store k)
  map_after = get_by_id-Created p.job_store new idx js v.store named c

  slot_of : lookup new.id js.by_id ≡ some idx
  slot_of = c.index new.id ∙ rw (=?_refl new.id) refl

  -- The slot that the reference names holds the job.
  referenced : get js idx ≡ some new
  referenced =
      sym (get_by_id-slot js new.id idx slot_of) ∙ (map_after new.id ∙ rw (=?_refl new.id) refl)

  held : Held js new.id idx new
  held = record { slot = c.slot idx ∙ ground arith; name = refl; named = named }

  released : Changes js new.id none (freed js new idx)
  released = freed-Changes js new.id idx new c.valid slot_of held

  admitted :
      p.process_queue.live_count < length p.process_queue.records
      → Admitted env p new
          (record p { job_store = js; process_queue = added p.process_queue (new_ref env idx) })
  admitted room = record {
    valid = record {
      store = c.valid;
      queue = added-IsValid p.process_queue (new_ref env idx) v.queue room;
    };
    room = room;
    idx = idx;
    referenced = referenced;
    queued = refl;
    stored = map_after;
    bound = c.bound;
  }

  refused :
      length p.process_queue.records ≤ p.process_queue.live_count
      → Refused p (record p { job_store = freed js new idx })
  refused full = record {
    valid = record { store = released.valid; queue = v.queue };
    full = full;
    same_queue = refl;
    stored = λ k.
        released.map_after k ∙ ground (arith, map_after k, absent, string_key.beq_iff new.id k);
    bound = omega (arith, released.bound, c.bound);
  }

  enqueue-Outcome : Outcome env p new job.id (enqueue env p js job idx)
  unfolding enqueue
  enqueue-Outcome = elim (add_new_job-cases p.process_queue (new_ref env idx)) [
    | inr (room, e) ↦ inl (_, rw (e, enqueue) refl, admitted room)
    | inl (full, e) ↦
        inr
          (_, rw (e, enqueue) (rw (release-Held js new.id idx new c.valid held) refl), refused full)
  ]

pub stamped_id : (env : Env) (job : Job) → (stamped env job).id ≡ job.id
stamped_id env job = ground arith

admit-duplicate :
    (env : Env) (p : Partition) (job new : Job)
    → create p.job_store new ≡ done (p.job_store, err duplicate_job_id)
    → admit env p job new ≡ done (p, [])
unfolding admit
admit-duplicate env p job new e = rw e refl

admit-created :
    (env : Env) (p : Partition) (job new : Job) {idx : ℕ} {js : JobStore}
    → create p.job_store new ≡ done (js, ok idx)
    → admit env p job new ≡ enqueue env p js job idx
unfolding admit
admit-created env p job new e = rw e refl

-- Every branch of the loop's body of `handleAddJobs`, for a job with an ID, in a partition whose
-- store and queue are well formed and whose slots are fewer than 2^32 - 1. A job that is done or
-- whose ID the store holds changes nothing and is no failure. Any other enters the store, and
-- at the back of the queue enters a reference to the slot that holds it; or the queue is full, the job is reported as a failure, and the store's map
-- stays as it was. Nothing panics, and the store and the queue stay well formed.
pub add_job-cases :
    (env : Env) (p : Partition) (job : Job)
    → IsValid p
    → job.id ≢ ""
    → suc (length p.job_store.jobs) < u32_mod
    → ((add_job env p job ≡ done (p, []))
        × ((job.is_done ≡ true) ⊎ (is_some (get_by_id p.job_store job.id) ≡ true)))
      ⊎ ((job.is_done ≡ false)
          × (get_by_id p.job_store job.id ≡ none)
          × Outcome env p (stamped env job) job.id (add_job env p job))
unfolding add_job
add_job-cases env p job v named fits = elim (Bool-cases job.is_done) [
  | inl d ↦ inl (simp d refl, inl d)
  | inr d ↦
      let new = stamped env job in
      let same = stamped_id env job in
      let named' : new.id ≢ "" = λ h. named (sym same ∙ h) in
      let undone : add_job env p job ≡ admit env p job new = simp d refl in
      elim (create-refines p.job_store new v.store named' fits) [
        | inl (old, there, e) ↦ inl (
          undone ∙ admit-duplicate env p job new e,
          inr (ap is_some (ap (get_by_id p.job_store) (sym same) ∙ there)),
        )
        | inr (_, _, absent, _, _, _) ↦
            let (idx, js, e, c) = create-Created p.job_store new v.store named' fits absent in
            inr (
              d,
              ap (get_by_id p.job_store) (sym same) ∙ absent,
              subst (Outcome env p new job.id) (sym (undone ∙ admit-created env p job new e))
                  (enqueue-Outcome env p job new v named' absent idx js c),
            )
      ]
]
