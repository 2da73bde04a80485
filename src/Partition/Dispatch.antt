-- ===== src/Partition/Dispatch.antt =====
-- internal/state/partition.go: `dispatch`, which sends due jobs to a proxy. `marshal` stands for
-- `msgpack.Marshal`, which may fail.
use cue.Base.{
  ℕ, List, [], ◌∷◌, ◌++◌, Option, none, some, String, ◌==◌, if◌then◌else◌, length, ok, err, Run,
  done, ◌>>=◌,
}
use cue.Base.Int.{ℤ, pos, ◌+ℤ◌, ◌*ℤ◌, ltb_ℤ, leb_ℤ}
use cue.Base.Key.{string_key}
use cue.Base.Dict.{lookup}
use cue.Model.{Job, Channel, leader_active, ToGatewayMessage, consumer, ToProxyMessage, outbound}
use cue.Queue.{JobRef, ProcessQueue, read_batch, remove_cells, update_retry}
use cue.Store.{JobStore, get}
use cue.Proxies.{get_next_available}
use cue.Dlq
use cue.Dlq.{DlqBuffer, to_uint32}
use cue.Partition.State.{Partition, PartitionConfig, Env, get_status, calculate_retry_delay_sec}

-- The variables of the loop that classifies the batch.
pub record Classified : Type 0 where
  pub job_store : JobStore
  pub dlq_buffer : DlqBuffer
  pub job_slice : List Job
  pub valid_refs : List JobRef
  pub remove_refs : List JobRef

-- `sendToDLQ`, for a job that is not nil
unfoldable pub send_to_dlq : Env → Classified → JobRef → Job → Run Classified
unfolding Dlq.add
send_to_dlq env c ref job =
    Dlq.add c.dlq_buffer c.job_store ref (pos (length job.bytes)) job.is_done env.now_milli
    >>= λ (dlq, store, full). done (record c { job_store = store; dlq_buffer = dlq })

abbrev pub removing : Classified → JobRef → Classified
removing c ref = record c { remove_refs = c.remove_refs ++ ref ∷ [] }

abbrev pub sending : Classified → JobRef → Job → Classified
sending c ref job = record c {
  job_slice = c.job_slice ++ job ∷ [];
  valid_refs = c.valid_refs ++ ref ∷ [];
}

-- The body of the loop, for the job that `Get` returned.
unfoldable pub classify_one :
    Env → PartitionConfig → JobRef → Option Job → Classified → Run Classified
unfolding send_to_dlq
classify_one env config ref none c = done (removing c ref)
classify_one env config ref (some job) c =
    if job.is_done
    then done (removing c ref)
    else if leb_ℤ config.max_retries ref.retry_count
    then (send_to_dlq env c ref job >>= λ c'. done (removing c' ref))
    else done (sending c ref job)

unfoldable pub classify : Env → PartitionConfig → List JobRef → Classified → Run Classified
unfolding classify_one
classify env config [] c = done c
classify env config (ref ∷ refs) c =
    classify_one env config ref (get c.job_store (to_uint32 ref.index)) c >>= λ c'.
    classify env config refs c'

-- The loop over `validRefs` after a send; the error of `UpdateRetry` is not read.
unfoldable pub bump_retries : Env → PartitionConfig → ProcessQueue → List JobRef → ProcessQueue
bump_retries env config q [] = q
bump_retries env config q (ref ∷ refs) =
    let count = ref.retry_count +ℤ pos 1 in
    let delay = calculate_retry_delay_sec config count in
    bump_retries env config
      (elim (update_retry q ref.cell count delay env.now_sec) [ ok q' ↦ q' | err e ↦ q ]) refs

abbrev pub Sent : Type 0
Sent = Option (Channel × ToGatewayMessage)

-- The partition after the loop, with the queue `q` less the references to remove.
abbrev pub settled : Partition → Classified → ProcessQueue → Partition
settled p c q = record p {
  job_store = c.job_store;
  dlq_buffer = c.dlq_buffer;
  process_queue = remove_cells q c.remove_refs;
}

-- `min(consumerCount*p.Config.DispatchBatchSize, chCapacity)`, cut at 4096
unfoldable pub batch_size : PartitionConfig → ℤ → ℕ → ℤ
batch_size config consumers capacity =
    let wanted = consumers *ℤ config.dispatch_batch_size in
    let size = if ltb_ℤ wanted (pos capacity) then wanted else pos capacity in
    if ltb_ℤ (pos 4096) size then pos 4096 else size

abbrev pub start : Partition → Classified
start p = record {
  job_store = p.job_store;
  dlq_buffer = p.dlq_buffer;
  job_slice = [];
  valid_refs = [];
  remove_refs = [];
}

module _ (marshal : ToProxyMessage → Option (List ℕ)) where
  -- From the test for an empty slice on.
  unfoldable pub deliver : Env → Partition → String → Channel → Classified → Partition × Sent
  unfolding bump_retries
  deliver env p proxy_id ch c = elim c.job_slice [
    | [] ↦ (settled p c p.process_queue, none)
    | job ∷ jobs ↦
        elim (marshal
          (outbound (record { topic = p.topic; proxy_id = proxy_id; jobs = c.job_slice }))) [
            | none ↦ (settled p c p.process_queue, none)
            | some bytes ↦
                if env.accepts ch
                then (
                  settled p c (bump_retries env p.config p.process_queue c.valid_refs),
                  some (ch, consumer bytes),
                )
                else (settled p c p.process_queue, none)
          ]
  ]

  -- From the read of the batch on.
  unfoldable pub send_items :
      Env → Partition → String → Channel → List JobRef → Run (Partition × Sent)
  unfolding classify deliver
  send_items env p proxy_id ch [] = done (p, none)
  send_items env p proxy_id ch (item ∷ items) =
      classify env p.config (item ∷ items) (start p) >>= λ c. done (deliver env p proxy_id ch c)

  -- From the lookup of the proxy's channel on.
  unfoldable pub send_batch : Env → Partition → String → ℤ → Run (Partition × Sent)
  unfolding send_items batch_size
  send_batch env p proxy_id consumers = elim (lookup proxy_id p.proxy_push_chs) [
    | none ↦ done (p, none)
    | some ch ↦
        if env.free ch == 0
        then done (p, none)
        else send_items env p proxy_id ch
            (read_batch p.process_queue (batch_size p.config consumers (env.free ch)) env.now_sec)
  ]

  -- `dispatch`
  unfoldable pub dispatch : Env → Partition → Run (Partition × Sent)
  unfolding send_batch
  dispatch env p = elim (get_status env) [
    | leader_active ↦ elim p.proxy_map.available [
      | [] ↦ done (p, none)
      | id ∷ ids ↦ get_next_available p.proxy_map >>= λ (pm, picked). elim picked [
        | none ↦ done (record p { proxy_map = pm }, none)
        | some (proxy_id, consumers) ↦
            if leb_ℤ consumers (pos 0)
            then done (record p { proxy_map = pm }, none)
            else send_batch env (record p { proxy_map = pm }) proxy_id consumers
      ]
    ]
    | _ ↦ done (p, none)
  ]
