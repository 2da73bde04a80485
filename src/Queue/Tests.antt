-- ===== src/Queue/Tests.antt =====
-- internal/state/process_queue.go: small queues on which the theorems are applied.
use cue.Base.{◌≡◌, refl, inl, inr, [], ◌∷◌, ◌++◌, map, Perm, take, arith}
use cue.Base.Int.{ℤ, pos, negsuc, pos_part}
use cue.Queue.{
  JobRef, ProcessQueue, new_process_queue, add_new_job, added, remove_cells, read_batch, live,
}
use cue.Queue.Shape.{IsValid, adds, apply, apply-IsValid, new_process_queue-IsValid}
use cue.Queue.Contents.{contents, forget}
use cue.Queue.Removal.{remove_cells-perm, remove_cells-unordered}
use cue.Queue.Batch.{two_oldest, read_batch-two_oldest}

-- A reference as `handleAddJobs` makes it.
abbrev fresh : ℤ → ℤ → JobRef
fresh index due = record { index = index; retry_count = pos 0; cell = negsuc 0; due_time_sec = due }

abbrev one_job : ProcessQueue
one_job = apply (new_process_queue 3) (adds (fresh (pos 7) (pos 5)))

abbrev two_jobs : ProcessQueue
two_jobs = apply one_job (adds (fresh (pos 8) (pos 4)))

-- The jobs as they stand in the queue.
abbrev first_job : JobRef
first_job = record { index = pos 7; retry_count = pos 0; cell = pos 0; due_time_sec = pos 5 }

abbrev last_job : JobRef
last_job = record { index = pos 8; retry_count = pos 0; cell = pos 1; due_time_sec = pos 4 }

one_job-IsValid : IsValid one_job
one_job-IsValid =
    apply-IsValid (new_process_queue 3) (adds (fresh (pos 7) (pos 5))) (new_process_queue-IsValid 3)

two_jobs-IsValid : IsValid two_jobs
two_jobs-IsValid = apply-IsValid one_job (adds (fresh (pos 8) (pos 4))) one_job-IsValid

apply-IsValid_example : IsValid (apply one_job (adds (fresh (pos 8) (pos 4))))
apply-IsValid_example = apply-IsValid one_job (adds (fresh (pos 8) (pos 4))) one_job-IsValid

remove_cells-perm_example :
    Perm
      (contents two_jobs)
      (map forget (first_job ∷ []) ++ contents (remove_cells two_jobs (first_job ∷ [])))
unfolding apply add_new_job added new_process_queue
remove_cells-perm_example =
    remove_cells-perm two_jobs 0 (first_job ∷ []) two_jobs-IsValid (omega arith)
      (0, refl, omega arith, omega arith, refl, tt)

remove_cells-unordered_example :
    Perm
      (contents two_jobs)
      (forget first_job ∷ contents (remove_cells two_jobs (last_job ∷ first_job ∷ [])))
unfolding apply add_new_job added new_process_queue
remove_cells-unordered_example =
    remove_cells-unordered two_jobs 0 1 first_job last_job two_jobs-IsValid refl (omega arith) refl
      refl

read_batch-two_oldest_example :
    read_batch two_jobs (pos 1) (pos 9)
    ≡ take (pos_part (pos 1)) (two_oldest (pos 9) (live two_jobs))
unfolding apply add_new_job added new_process_queue
read_batch-two_oldest_example = read_batch-two_oldest two_jobs (pos 1) (pos 9) λ t h. elim h [
  | inl e ↦ rw e (omega arith)
  | inr (inl e) ↦ rw e (omega arith)
  | inr (inr x) ↦ absurd x
]
