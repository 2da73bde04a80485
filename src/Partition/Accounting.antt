-- ===== src/Partition/Accounting.antt =====
-- internal/state/partition.go: the whole loop of `handleAddJobs`.
use mathlib.Core.List.{append_assoc, append-nil}
use cue.Base.{
  ℕ, suc, ◌+◌, ◌≤◌, ◌<◌, ◌≡◌, ◌≢◌, sym, ap, ◌∙◌, ◌⊎◌, inl, inr, Bool, true, false, ◌||◌, List, [],
  ◌∷◌, ◌++◌, String, is_some, length, done, arith,
}
use cue.Base.Key.{string_key, ◌=?◌, =?_refl}
use cue.Model.{Job, JobFailure, fail_queue_full}
use cue.Store.{u32_mod, get_by_id}
use cue.Partition.State.{Partition, Env}
use cue.Partition.Commands.{stamped, add_job, add_jobs_loop}
use cue.Partition.Admission.{IsValid, add_job-cases, stamped_id}

abbrev pub reported : String → List JobFailure → Bool
reported id [] = false
reported id (f ∷ fs) = (f.job_id =? id) || reported id fs

-- The job is done, or in the store, or reported as a failure.
abbrev pub Accounted : Partition → List JobFailure → Job → Type 0
Accounted p failures job =
    (job.is_done ≡ true)
    ⊎ ((is_some (get_by_id p.job_store job.id) ≡ true) ⊎ (reported job.id failures ≡ true))

-- The partition stays well formed, and loses no job.
pub record Keeps (p p' : Partition) (added : ℕ) : Type 0 where
  pub valid : IsValid p'
  pub keeps :
      (k : String)
      → is_some (get_by_id p.job_store k) ≡ true
      → is_some (get_by_id p'.job_store k) ≡ true
  pub bound : length p'.job_store.jobs ≤ length p.job_store.jobs + added

add_job-Keeps :
    (env : Env) (p : Partition) (job : Job)
    → IsValid p
    → job.id ≢ ""
    → suc (length p.job_store.jobs) < u32_mod
    → (p' : Partition) × (more : List JobFailure) × (add_job env p job ≡ done (p', more))
      × Keeps p p' 1
      × Accounted p' more job
add_job-Keeps env p job v named fits = elim (add_job-cases env p job v named fits) [
  | inl (e, why) ↦ (
    p,
    [],
    e,
    record { valid = v; keeps = λ k h. h; bound = omega arith },
    elim why [ inl d ↦ inl d | inr s ↦ inr (inl s) ],
  )
  | inr (_, absent, inl (p', e, a)) ↦
      let new = stamped env job in
      (
        p',
        [],
        e,
        record {
          valid = a.valid;
          keeps = λ k h. ground (arith, h, a.stored k);
          bound = omega (arith, a.bound);
        },
        inr (
            inl (
              ground
                (arith, a.stored job.id, stamped_id env job, string_key.beq_iff new.id job.id))),
      )
  | inr (_, absent, inr (p', e, r)) ↦ (
    p',
    record { job_id = job.id; reason = fail_queue_full } ∷ [],
    e,
    record {
      valid = r.valid;
      keeps = λ k h. ground (arith, h, r.stored k);
      bound = omega (arith, r.bound);
    },
    inr (inr (ground (arith, =?_refl job.id))),
  )
]

-- Each job has an ID.
abbrev pub AllNamed : List Job → Type 0
AllNamed [] = Unit
AllNamed (job ∷ jobs) = (job.id ≢ "") × AllNamed jobs

abbrev pub AllAccounted : Partition → List JobFailure → List Job → Type 0
AllAccounted p failures [] = Unit
AllAccounted p failures (job ∷ jobs) = Accounted p failures job × AllAccounted p failures jobs

reported-append :
    (id : String) (fs gs : List JobFailure)
    → (reported id fs ≡ true) ⊎ (reported id gs ≡ true)
    → reported id (fs ++ gs) ≡ true
reported-append id [] gs (inr h) = h
reported-append id [] gs (inl h) = absurd (ground (arith, h))
reported-append id (f ∷ fs) gs h = ground (arith, h, reported-append id fs gs)

Accounted-later :
    (p1 p2 : Partition) (fs gs : List JobFailure) (added : ℕ) (job : Job)
    → Keeps p1 p2 added
    → Accounted p1 fs job
    → Accounted p2 (fs ++ gs) job
Accounted-later p1 p2 fs gs added job k (inl d) = inl d
Accounted-later p1 p2 fs gs added job k (inr (inl s)) = inr (inl (k.keeps job.id s))
Accounted-later p1 p2 fs gs added job k (inr (inr r)) =
    inr (inr (reported-append job.id fs gs (inl r)))

AllAccounted-more :
    (p : Partition) (fs gs : List JobFailure) (jobs : List Job)
    → AllAccounted p gs jobs
    → AllAccounted p (fs ++ gs) jobs
AllAccounted-more p fs gs [] a = tt
AllAccounted-more p fs gs (job ∷ jobs) (a, rest) = (one a, AllAccounted-more p fs gs jobs rest)
  where
    one : Accounted p gs job → Accounted p (fs ++ gs) job
    one (inl d) = inl d
    one (inr (inl s)) = inr (inl s)
    one (inr (inr r)) = inr (inr (reported-append job.id fs gs (inr r)))

-- In a well-formed partition whose store has room for all of them below 2^32 slots, the loop of
-- `handleAddJobs` over jobs that have IDs does not panic. It keeps the store and the queue well formed
-- and every job in the store, and each job of the command is done, or then in the store, or reported
-- as a failure.
pub add_jobs_loop-AllAccounted :
    (env : Env) (p : Partition) (jobs : List Job) (failures : List JobFailure)
    → IsValid p
    → AllNamed jobs
    → length p.job_store.jobs + length jobs < u32_mod
    → (p' : Partition) × (more : List JobFailure) × (add_jobs_loop env p jobs failures
        ≡ done (p', failures ++ more))
      × Keeps p p' (length jobs)
      × AllAccounted p' more jobs
unfolding add_jobs_loop
add_jobs_loop-AllAccounted env p [] failures v named fits = (
  p,
  [],
  ap (λ l. done (p, l)) (sym (append-nil failures)),
  record { valid = v; keeps = λ k h. h; bound = omega arith },
  tt,
)
add_jobs_loop-AllAccounted env p (job ∷ jobs) failures v (n, ns) fits =
    let (p1, more1, e1, k1, a1) = add_job-Keeps env p job v n (omega (arith, fits)) in
    let (p2, more2, e2, k2, a2) =
      add_jobs_loop-AllAccounted env p1 jobs (failures ++ more1) k1.valid ns
        (omega (arith, fits, k1.bound)) in
    (
      p2,
      more1 ++ more2,
      rw e1 (e2 ∙ ap (λ l. done (p2, l)) (append_assoc failures more1 more2)),
      record {
        valid = k2.valid;
        keeps = λ k h. k2.keeps k (k1.keeps k h);
        bound = omega (arith, k1.bound, k2.bound);
      },
      (
        Accounted-later p1 p2 more1 more2 (length jobs) job k2 a1,
        AllAccounted-more p2 more1 more2 jobs a2,
      ),
    )
