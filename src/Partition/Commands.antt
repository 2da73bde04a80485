-- ===== src/Partition/Commands.antt =====
-- internal/state/partition.go: the commands that the Raft log brings. A handler returns the partition
-- and the response that it offers to the command's channel, if there is one.
use cue.Base.{
  ℕ, List, [], ◌∷◌, ◌++◌, Option, none, some, String, ◌==◌, if◌then◌else◌, map, ok, err, Run, done,
  ◌>>=◌,
}
use cue.Base.Int.{pos, eq_ℤ}
use cue.Model.{
  Job, Channel, RespStatus, success, failure, fail_queue_full, JobFailure, ToProducerResponse,
  Command, cmd_add_jobs, cmd_done, cmd_drop,
}
use cue.Queue.{JobRef, add_new_job}
use cue.Store.{JobStore, create, release, mark_done, force_release}
use cue.Dlq
use cue.Dlq.{DropProposal, should_flush}
use cue.Partition.State.{Partition, Env}

abbrev pub Response : Type 0
Response = Option (Channel × ToProducerResponse)

-- `if cmd.RespInfo != nil && cmd.RespInfo.RespCh != nil`, and the send that does not wait
unfoldable pub offer : Command → RespStatus → String → List JobFailure → Response
offer cmd status error failures = elim cmd.resp_info [
  | none ↦ none
  | some info ↦ elim info.resp_ch [
    | none ↦ none
    | some ch ↦ some (
      ch,
      record { request_id = info.request_id; status = status; error = error; failures = failures },
    )
  ]
]

-- `if job.CreatedAt == 0 { job.CreatedAt = nowMilli() }`
abbrev pub stamped : Env → Job → Job
stamped env job =
    if eq_ℤ job.created_at (pos 0) then record job { created_at = env.now_milli } else job

abbrev pub new_ref : Env → ℕ → JobRef
new_ref env idx = record {
  index = pos idx;
  retry_count = pos 0;
  cell = pos 0;
  due_time_sec = env.now_sec;
}

-- The rest of the loop's body, for a job that `Create` gave the slot `idx`.
unfoldable pub enqueue : Env → Partition → JobStore → Job → ℕ → Run (Partition × List JobFailure)
enqueue env p store job idx = elim (add_new_job p.process_queue (new_ref env idx)) [
  | ok q ↦ done (record p { job_store = store; process_queue = q }, [])
  | err e ↦ release store idx >>= λ store'.
      done
        (record p { job_store = store' }, record { job_id = job.id; reason = fail_queue_full } ∷ [])
]

-- From the call of `Create` on, for the job with its time of creation. The only error of `Create` is a
-- duplicate, so that the branch for other errors is not reached.
unfoldable pub admit : Env → Partition → Job → Job → Run (Partition × List JobFailure)
unfolding enqueue
admit env p job new = create p.job_store new >>= λ (store, r). elim r [
  | err duplicate ↦ done (p, [])
  | ok idx ↦ enqueue env p store job idx
]

-- The body of the loop of `handleAddJobs`: the partition and the failures that it appends.
unfoldable pub add_job : Env → Partition → Job → Run (Partition × List JobFailure)
unfolding admit
add_job env p job = if job.is_done then done (p, []) else admit env p job (stamped env job)

unfoldable pub add_jobs_loop :
    Env → Partition → List Job → List JobFailure → Run (Partition × List JobFailure)
unfolding add_job
add_jobs_loop env p [] failures = done (p, failures)
add_jobs_loop env p (job ∷ jobs) failures =
    add_job env p job >>= λ (p', more). add_jobs_loop env p' jobs (failures ++ more)

abbrev pub status_of : List JobFailure → RespStatus
status_of [] = success
status_of (f ∷ fs) = failure

-- `handleAddJobs`
unfoldable pub handle_add_jobs : Env → Partition → Command → Run (Partition × Response)
unfolding add_jobs_loop offer
handle_add_jobs env p cmd = elim cmd.add_jobs [
  | none ↦ done (p, offer cmd failure "invalid payload" [])
  | some payload ↦ add_jobs_loop env p payload.jobs [] >>= λ (p', failures).
      done (p', offer cmd (status_of failures) "" failures)
]

unfoldable pub mark_all : JobStore → List String → Run JobStore
mark_all js [] = done js
mark_all js (id ∷ ids) = mark_done js id >>= λ (js', marked). mark_all js' ids

unfoldable pub release_all : JobStore → List String → Run JobStore
release_all js [] = done js
release_all js (id ∷ ids) = force_release js id >>= λ (js', released). release_all js' ids

-- `handleDone`
unfoldable pub handle_done : Partition → Command → Run (Partition × Response)
unfolding mark_all offer
handle_done p cmd = elim cmd.done_jobs [
  | none ↦ done (p, offer cmd failure "invalid payload" [])
  | some payload ↦ mark_all p.job_store payload.job_ids >>= λ js.
      done (record p { job_store = js }, offer cmd success "" [])
]

-- `handleDrop`
unfoldable pub handle_drop : Partition → Command → Run (Partition × Response)
unfolding release_all offer
handle_drop p cmd = elim cmd.drop_jobs [
  | none ↦ done (p, offer cmd failure "invalid payload" [])
  | some payload ↦ release_all p.job_store payload.job_ids >>= λ js.
      done (record p { job_store = js }, offer cmd success "" [])
]

-- `handleCommand`
unfoldable pub handle_command : Env → Partition → Command → Run (Partition × Response)
unfolding handle_add_jobs handle_done handle_drop
handle_command env p cmd =
    if cmd.kind == cmd_add_jobs
    then handle_add_jobs env p cmd
    else if cmd.kind == cmd_done
    then handle_done p cmd
    else if cmd.kind == cmd_drop
    then handle_drop p cmd
    else done (p, offer cmd failure "unknown command" [])

-- The command that `flushDLQ` proposes.
abbrev pub drop_command : String → List DropProposal → Command
drop_command topic drops = record {
  kind = cmd_drop;
  add_jobs = none;
  done_jobs = none;
  drop_jobs = some (record { topic = topic; job_ids = map (λ d. d.job_id) drops });
  resp_info = none;
}

abbrev pub proposal_of : String → List DropProposal → Option Command
proposal_of topic [] = none
proposal_of topic (d ∷ ds) = some (drop_command topic (d ∷ ds))

-- `flushDLQ`, with the command that it offers to the cluster agent
unfoldable pub flush_dlq : Env → Partition → Run (Partition × Option Command)
flush_dlq env p = Dlq.flush p.dlq_buffer p.job_store env.now_milli >>= λ (dlq, store, drops).
    done (record p { dlq_buffer = dlq; job_store = store }, proposal_of p.topic drops)

-- `flushDLQIfNeeded`
unfoldable pub flush_dlq_if_needed : Env → Partition → Run (Partition × Option Command)
unfolding flush_dlq
flush_dlq_if_needed env p =
    if should_flush p.dlq_buffer env.now_milli then flush_dlq env p else done (p, none)
