-- ===== src/Partition/Follower.antt =====
-- internal/state/partition.go: what the commands of the log, which every node applies, make of the
-- length of the queue. Only `dispatch`, which a follower leaves at once, removes references from it.
use cue.Base.{
  ℕ, ◌≤◌, ◌≡◌, refl, sym, ap, subst, ◌∙◌, inl, inr, List, [], ◌∷◌, ◌++◌, length, Result, ok, err,
  Run, done, panics, OnDone, OnDone-bind, OnDone-after, Bool-cases, Option-cases, arith, length-set,
  ◌==◌,
}
use cue.Model.{Job, JobFailure, Command, cmd_add_jobs, cmd_done, cmd_drop}
use cue.Queue.{added}
use cue.Queue.Shape.{add_new_job-cases}
use cue.Store.{JobStore, StoreError, create, release}
use cue.Partition.State.{Partition, Env}
use cue.Partition.Commands.{
  enqueue, admit, add_job, add_jobs_loop, stamped, new_ref, handle_add_jobs, handle_done,
  handle_drop, handle_command, mark_all, release_all,
}

-- The queue has as many live jobs as before or more, in a slice of the same length.
pub record Grows (p p' : Partition) : Type 0 where
  pub more : p.process_queue.live_count ≤ p'.process_queue.live_count
  pub same : length p'.process_queue.records ≡ length p.process_queue.records

Grows-same : (p p' : Partition) → p'.process_queue ≡ p.process_queue → Grows p p'
Grows-same p p' e = record {
  more = omega (arith, ap (λ q. q.live_count) e);
  same = ap (λ q. length q.records) e;
}

Grows-trans : (p q r : Partition) → Grows p q → Grows q r → Grows p r
Grows-trans p q r a b = record { more = omega (arith, a.more, b.more); same = b.same ∙ a.same }

-- An operation that returns a partition and more.
abbrev pub OnlyGrows {ℓ} : {B : Type ℓ} → Partition → Run (Partition × B) → Type 0
OnlyGrows p = OnDone (λ r. Grows p r.0)

enqueue-Grows :
    (env : Env) (p : Partition) (js : JobStore) (job : Job) (idx : ℕ)
    → OnlyGrows p (enqueue env p js job idx)
unfolding enqueue added
enqueue-Grows env p js job idx =
    let q = p.process_queue in
    elim (add_new_job-cases q (new_ref env idx)) [
      | inl (full, e) ↦
          rw (e, enqueue)
            (OnDone-bind (λ r. Grows p r.0) (release js idx) _ λ js'. Grows-same p _ refl)
      | inr (room, e) ↦
          rw (e, enqueue)
            (record { more = omega arith; same = length-set q.records q.live_count _ })
    ]

admit-Grows : (env : Env) (p : Partition) (job new : Job) → OnlyGrows p (admit env p job new)
unfolding admit
admit-Grows env p job new =
    OnDone-bind (λ r. Grows p r.0) (create p.job_store new) _ λ (js, r). by_result js r
  where
    by_result :
        (js : JobStore) (r : Result StoreError ℕ)
        → OnlyGrows p (elim r [ err duplicate ↦ done (p, []) | ok idx ↦ enqueue env p js job idx ])
    by_result js (err e) = Grows-same p p refl
    by_result js (ok idx) = enqueue-Grows env p js job idx

add_job-Grows : (env : Env) (p : Partition) (job : Job) → OnlyGrows p (add_job env p job)
unfolding add_job
add_job-Grows env p job = elim (Bool-cases job.is_done) [
  | inl d ↦ simp d (Grows-same p p refl)
  | inr d ↦
      let undone : add_job env p job ≡ admit env p job (stamped env job) = simp d refl in
      subst (OnlyGrows p) (sym undone) (admit-Grows env p job (stamped env job))
]

add_jobs_loop-Grows :
    (env : Env) (p : Partition) (jobs : List Job) (failures : List JobFailure)
    → OnlyGrows p (add_jobs_loop env p jobs failures)
unfolding add_jobs_loop
add_jobs_loop-Grows env p [] failures = Grows-same p p refl
add_jobs_loop-Grows env p (job ∷ jobs) failures =
    OnDone-after (λ r. Grows p r.0) (λ r. Grows p r.0) (add_job env p job) _
      (add_job-Grows env p job)
      λ (p1, more) g.
        weaken p1 g (add_jobs_loop env p1 jobs (failures ++ more))
          (add_jobs_loop-Grows env p1 jobs (failures ++ more))
  where
    weaken :
        (p1 : Partition)
        → Grows p p1
        → (m : Run (Partition × List JobFailure)) → OnlyGrows p1 m
        → OnlyGrows p m
    weaken p1 g (done r) h = Grows-trans p p1 r.0 g h
    weaken p1 g panics h = tt

handle_add_jobs-Grows :
    (env : Env) (p : Partition) (cmd : Command) → OnlyGrows p (handle_add_jobs env p cmd)
unfolding handle_add_jobs
handle_add_jobs-Grows env p cmd = elim (Option-cases cmd.add_jobs) [
  | inl e ↦ rw (e, handle_add_jobs) (Grows-same p p refl)
  | inr (payload, e) ↦
      rw (e, handle_add_jobs)
        (OnDone-after (λ r. Grows p r.0) (λ r. Grows p r.0) (add_jobs_loop env p payload.jobs []) _
          (add_jobs_loop-Grows env p payload.jobs []) λ r g. g)
]

handle_done-Grows : (p : Partition) (cmd : Command) → OnlyGrows p (handle_done p cmd)
unfolding handle_done
handle_done-Grows p cmd = elim (Option-cases cmd.done_jobs) [
  | inl e ↦ rw (e, handle_done) (Grows-same p p refl)
  | inr (payload, e) ↦
      rw (e, handle_done)
        (OnDone-bind (λ r. Grows p r.0) (mark_all p.job_store payload.job_ids) _
          λ js. Grows-same p _ refl)
]

handle_drop-Grows : (p : Partition) (cmd : Command) → OnlyGrows p (handle_drop p cmd)
unfolding handle_drop
handle_drop-Grows p cmd = elim (Option-cases cmd.drop_jobs) [
  | inl e ↦ rw (e, handle_drop) (Grows-same p p refl)
  | inr (payload, e) ↦
      rw (e, handle_drop)
        (OnDone-bind (λ r. Grows p r.0) (release_all p.job_store payload.job_ids) _
          λ js. Grows-same p _ refl)
]

-- No command of the log takes a job out of the queue: after any command that does not panic, the
-- queue has as many live jobs as before or more, in a slice of the same length.
pub handle_command-Grows :
    (env : Env) (p : Partition) (cmd : Command) → OnlyGrows p (handle_command env p cmd)
unfolding handle_command
handle_command-Grows env p cmd = elim (Bool-cases (cmd.kind == cmd_add_jobs)) [
  | inl e ↦ simp e (handle_add_jobs-Grows env p cmd)
  | inr e ↦ elim (Bool-cases (cmd.kind == cmd_done)) [
    | inl f ↦ simp (e, f) (handle_done-Grows p cmd)
    | inr f ↦ elim (Bool-cases (cmd.kind == cmd_drop)) [
      | inl g ↦ simp (e, f, g) (handle_drop-Grows p cmd)
      | inr g ↦ simp (e, f, g) (Grows-same p p refl)
    ]
  ]
]
