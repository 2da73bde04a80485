-- ===== src/Partition/Dangling.antt =====
-- A dead letter whose job is dropped before the buffer is flushed.
use cue.Base.{
  ℕ, ◌≡◌, refl, ◌∙◌, ◌⊎◌, inl, inr, true, List, [], ◌∷◌, none, some, String, done, panics, ◌>>=◌,
  arith,
}
use cue.Base.Key.{string_key}
use cue.Model.{Job, Command, DropPayload}
use cue.Store.{JobStore, get_by_id, get}
use cue.Store.Invariant.{IsValid}
use cue.Store.Emptied.{release-get, force_release-slots}
use cue.Store.Release.{force_release-refines}
use cue.Dlq.{DeadLetter}
use cue.Dlq.Flush.{slot, Dangling, flush-Dangling}
use cue.Partition.State.{Partition, Env}
use cue.Partition.Commands.{handle_drop, flush_dlq, release_all}
use cue.Partition.Completion.{named_in, release_all-Swept}

-- A job that the store's slots hold is in the map under its ID.
get-get_by_id :
    (js : JobStore) (i : ℕ) (job : Job)
    → IsValid js
    → get js i ≡ some job
    → get_by_id js job.id ≡ some job
unfolding get_by_id
get-get_by_id js i job v e =
    let (at, named, r) = release-get js i job e in
    rw (v.indexed job.id i named (rw at refl), get_by_id) e

release_all-slots :
    (js : JobStore) (ids : List String) (j : ℕ)
    → IsValid js
    → {js' : JobStore} → release_all js ids ≡ done js'
    → (get js' j ≡ get js j) ⊎ (get js' j ≡ none)
unfolding release_all
release_all-slots js [] j v h = inl (ground arith)
release_all-slots js (id ∷ ids) j v {js'} h =
    let (js1, e, c) = force_release-refines js id v in
    elim (release_all-slots js1 ids j c.valid {js' = js'} (rw e at h)) [
      | inl same ↦ elim (force_release-slots js id j e) [
        | inl k ↦ inl (same ∙ k)
        | inr k ↦ inr (same ∙ k)
      ]
      | inr gone ↦ inr gone
    ]

-- Dropping the job of a slot empties the slot.
release_all-get :
    (js : JobStore) (ids : List String) (i : ℕ) (job : Job)
    → IsValid js
    → get js i ≡ some job
    → named_in job.id ids ≡ true
    → (js' : JobStore) × (release_all js ids ≡ done js') × (get js' i ≡ none)
release_all-get js ids i job v held named =
    let (js', e, s) = release_all-Swept js ids v in
    (
      js',
      e,
      elim (release_all-slots js ids i v e) [
        | inl same ↦
            let there = get-get_by_id js' i job s.valid (same ∙ held) in
            absurd (ground (arith, s.map_after job.id))
        | inr gone ↦ gone
      ],
    )

-- A letter of the buffer refers to the slot.
abbrev pub Refers : ℕ → List DeadLetter → Type 0
Refers i [] = ⊥
Refers i (item ∷ items) = (i ≡ slot item) ⊎ Refers i items

Refers-Dangling :
    (js : JobStore) (i : ℕ) (items : List DeadLetter)
    → get js i ≡ none
    → Refers i items
    → Dangling js items
Refers-Dangling js i [] e r = absurd r
Refers-Dangling js i (item ∷ items) e (inl same) = inl (rw (← same) e)
Refers-Dangling js i (item ∷ items) e (inr r) = inr (Refers-Dangling js i items e r)

-- Where the store is well formed, when the log brings the drop of a job that a buffered dead letter
-- still refers to, the next flush panics: the buffer is not told of the drop, and `Flush` reads the
-- job without a test for nil.
pub handle_drop-flush_dlq :
    (env : Env) (p : Partition) (cmd : Command) (payload : DropPayload) (i : ℕ) (job : Job)
    → IsValid p.job_store
    → cmd.drop_jobs ≡ some payload
    → get p.job_store i ≡ some job
    → named_in job.id payload.job_ids ≡ true
    → Refers i p.dlq_buffer.jobs
    → (handle_drop p cmd >>= λ (p', response). flush_dlq env p') ≡ panics
unfolding handle_drop flush_dlq
handle_drop-flush_dlq env p cmd payload i job v e held named r =
    let (js', e', gone) = release_all-get p.job_store payload.job_ids i job v held named in
    let panic =
      flush-Dangling p.dlq_buffer js' env.now_milli
        (Refers-Dangling js' i p.dlq_buffer.jobs gone r) in
    rw (e, handle_drop) (rw (e') (rw panic refl))
