-- ===== src/Partition/Completion.antt =====
-- The commands that complete and drop jobs.
use cue.Base.{
  ◌≡◌, refl, ◌∙◌, Bool, false, List, [], ◌∷◌, Option, none, some, String, ◌||◌, map_option,
  if◌then◌else◌, length, done, arith,
}
use cue.Base.Key.{string_key, ◌=?◌}
use cue.Model.{Job, Command, DonePayload, DropPayload, success}
use cue.Store.{JobStore, get_by_id}
use cue.Store.Invariant.{IsValid}
use cue.Store.Release.{finished, mark_done-refines, force_release-refines}
use cue.Partition.State.{Partition}
use cue.Partition.Commands.{mark_all, release_all, handle_done, handle_drop, offer}

-- Whether the ID is one of the command's.
abbrev pub named_in : String → List String → Bool
named_in k [] = false
named_in k (id ∷ ids) = (id =? k) || named_in k ids

-- What a loop over IDs makes of the store.
pub record Swept (js : JobStore) (ids : List String) (f : Option Job → Option Job) (js' : JobStore)
    : Type 0 where
  pub valid : IsValid js'
  pub bound : length js'.jobs ≡ length js.jobs
  pub map_after :
      (k : String)
      → get_by_id js' k ≡ (if named_in k ids then f (get_by_id js k) else get_by_id js k)

pub release_all-Swept :
    (js : JobStore) (ids : List String)
    → IsValid js
    → (js' : JobStore) × (release_all js ids ≡ done js') × Swept js ids (λ o. none) js'
unfolding release_all
release_all-Swept js [] v = (js, refl, record { valid = v; bound = refl; map_after = λ k. refl })
release_all-Swept js (id ∷ ids) v =
    let (js1, e, c) = force_release-refines js id v in
    let (js2, e', s) = release_all-Swept js1 ids c.valid in
    (
      js2,
      rw e e',
      record {
        valid = s.valid;
        bound = s.bound ∙ c.bound;
        map_after = λ k. s.map_after k ∙ ground (arith, c.map_after k);
      },
    )

twice-finished :
    (o : Option Job) → map_option finished (map_option finished o) ≡ map_option finished o
twice-finished none = refl
twice-finished (some job) = refl

pub mark_all-Swept :
    (js : JobStore) (ids : List String)
    → IsValid js
    → (js' : JobStore) × (mark_all js ids ≡ done js') × Swept js ids (map_option finished) js'
unfolding mark_all
mark_all-Swept js [] v = (js, refl, record { valid = v; bound = refl; map_after = λ k. refl })
mark_all-Swept js (id ∷ ids) v =
    let (js1, e, c) = mark_done-refines js id v in
    let (js2, e', s) = mark_all-Swept js1 ids c.valid in
    (
      js2,
      rw e e',
      record {
        valid = s.valid;
        bound = s.bound ∙ c.bound;
        map_after = λ k.
            s.map_after k
            ∙ ground
                (arith, c.map_after k, string_key.beq_iff id k, twice-finished (get_by_id js k));
      },
    )

-- Where the store is well formed, `CmdDone` with a payload marks exactly the jobs that it names,
-- and answers with success: no job leaves the store, no other job changes, and the rest of the
-- partition, its queue included, stays.
pub handle_done-Swept :
    (p : Partition) (cmd : Command) (payload : DonePayload)
    → IsValid p.job_store
    → cmd.done_jobs ≡ some payload
    → (js' : JobStore) × (handle_done p cmd
        ≡ done (record p { job_store = js' }, offer cmd success "" []))
      × Swept p.job_store payload.job_ids (map_option finished) js'
unfolding handle_done
handle_done-Swept p cmd payload v e =
    let (js', e', s) = mark_all-Swept p.job_store payload.job_ids v in
    (js', rw (e, handle_done) (rw e' refl), s)

-- Where the store is well formed, `CmdDrop` with a payload takes exactly the jobs that it names out
-- of the store, and answers with success; the references to them stay in the queue and in the
-- buffer of dead letters.
pub handle_drop-Swept :
    (p : Partition) (cmd : Command) (payload : DropPayload)
    → IsValid p.job_store
    → cmd.drop_jobs ≡ some payload
    → (js' : JobStore) × (handle_drop p cmd
        ≡ done (record p { job_store = js' }, offer cmd success "" []))
      × Swept p.job_store payload.job_ids (λ o. none) js'
unfolding handle_drop
handle_drop-Swept p cmd payload v e =
    let (js', e', s) = release_all-Swept p.job_store payload.job_ids v in
    (js', rw (e, handle_drop) (rw e' refl), s)
