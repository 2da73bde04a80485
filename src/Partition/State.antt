-- ===== src/Partition/State.antt =====
-- internal/state/partition.go: the state of a partition, the retry delay, and the handlers of
-- heartbeats and of the topology of proxies.
use cue.Base.{
  ℕ, ◌+◌, ◌-◌, ◌/◌, Bool, List, [], ◌∷◌, Option, none, some, String, leb, ◌==◌, if◌then◌else◌,
  length, Run, done, ◌>>=◌,
}
use cue.Base.Int.{ℤ, pos, ◌*ℤ◌, ltb_ℤ, leb_ℤ, pos_part}
use cue.Base.Key.{string_key, ◌=?◌}
use cue.Base.Dict.{Dict, insert, erase}
use cue.Model.{
  Channel, ClusterNodeStatus, status_from_uint32, ProxyHeartbeat, PartitionHeartbeat,
  ToGatewayMessage, heartbeat,
}
use cue.Queue.{ProcessQueue, new_process_queue, active_size}
use cue.Store.{JobStore, new_job_store}
use cue.Proxies
use cue.Proxies.{ProxyMap, new_proxy_map}
use cue.Dlq.{DlqBuffer, new_dlq_buffer}

pub record PartitionConfig : Type 0 where
  pub active_queue_capacity : ℕ
  pub max_retries : ℤ
  pub max_backoff_sec : ℤ
  pub dispatch_batch_size : ℤ
  pub dlq_max_bytes : ℤ
  pub dlq_max_age_ms : ℤ

pub record Partition : Type 0 where
  pub topic : String
  pub config : PartitionConfig
  pub job_store : JobStore
  pub process_queue : ProcessQueue
  pub proxy_map : ProxyMap
  pub dlq_buffer : DlqBuffer
  pub proxy_push_chs : Dict String Channel

-- What a handler reads from outside: the clock, in seconds and in milliseconds, which stands still
-- while one handler runs, the node status that other goroutines set, and the state of the channels,
-- which other goroutines fill and drain.
pub record Env : Type 0 where
  pub now_sec : ℤ
  pub now_milli : ℤ
  pub status : ℕ
  -- `cap(ch) - len(ch)`
  pub free : Channel → ℕ
  -- whether a send that does not wait goes through
  pub accepts : Channel → Bool

-- `NewPartition`, for a configuration whose `MaxBackoffSec` times `MaxRetries` is not negative
unfoldable pub new_partition : String → PartitionConfig → (now_milli : ℤ) → Partition
new_partition topic config now_milli = record {
  topic = topic;
  config = config;
  job_store =
      new_job_store
        (config.active_queue_capacity + pos_part (config.max_backoff_sec *ℤ config.max_retries));
  process_queue = new_process_queue config.active_queue_capacity;
  proxy_map = new_proxy_map;
  dlq_buffer = new_dlq_buffer config.dlq_max_bytes config.dlq_max_age_ms now_milli;
  proxy_push_chs = [];
}

-- `getStatus`
unfoldable pub get_status : Env → ClusterNodeStatus
get_status env = status_from_uint32 env.status

-- `ProxyTopologyUpdate`
pub data TopologyUpdate : Type 0 where
  adds : String → Option Channel → TopologyUpdate
  removes : String → TopologyUpdate

-- `HandleTopologyUpdate`
unfoldable pub handle_topology_update : Partition → TopologyUpdate → Partition
handle_topology_update p (adds proxy_id none) = p
handle_topology_update p (adds proxy_id (some push_ch)) = record p {
  proxy_push_chs = insert proxy_id push_ch p.proxy_push_chs;
}
handle_topology_update p (removes proxy_id) = record p {
  proxy_push_chs = erase proxy_id p.proxy_push_chs;
}

-- `handleHeartbeat`
unfoldable pub handle_heartbeat : Partition → ProxyHeartbeat → Run Partition
handle_heartbeat p hb =
    if hb.topic =? p.topic
    then (Proxies.update p.proxy_map hb.proxy_id hb.consumption_score hb.timestamp >>= λ pm.
        done (record p { proxy_map = pm }))
    else done p

-- `cleanupProxyMap`, with its timeout of 5 seconds
unfoldable pub cleanup_proxy_map : Partition → Env → Run Partition
cleanup_proxy_map p env = Proxies.cleanup_stale p.proxy_map env.now_milli (pos 5) >>= λ pm.
    done (record p { proxy_map = pm })

-- The `switch` of `CalculateRetryDelaySec`, for a positive count.
base_delay : ℕ → ℤ
base_delay n =
    if n == 1
    then pos 3
    else if n == 2
    then pos 6
    else if n == 3
    then pos 10
    else if n == 4
    then pos 15
    else pos 20

-- `CalculateRetryDelaySec`
unfoldable pub calculate_retry_delay_sec : PartitionConfig → ℤ → ℤ
unfolding base_delay
calculate_retry_delay_sec config retry_count =
    if leb_ℤ retry_count (pos 0)
    then pos 1
    else (let delay = base_delay (pos_part retry_count) in
        let capped =
          if ltb_ℤ (pos 0) config.max_backoff_sec
          then (if ltb_ℤ config.max_backoff_sec delay then config.max_backoff_sec else delay)
          else delay in
        if ltb_ℤ capped (pos 1) then pos 1 else capped)

-- `broadcastPartitionHeartbeat`: the heartbeat, and the channels that take it
unfoldable pub accepting : Env → Dict String Channel → List Channel
accepting env [] = []
accepting env ((id, ch) ∷ m) =
    let rest = accepting env m in if env.accepts ch then ch ∷ rest else rest

unfoldable pub broadcast_partition_heartbeat : Partition → Env → ToGatewayMessage × List Channel
unfolding accepting
broadcast_partition_heartbeat p env =
    let capacity = length p.process_queue.records in
    let breathing = capacity - capacity / 10 in
    let beat : PartitionHeartbeat = record {
      topic = p.topic;
      can_accept = leb (active_size p.process_queue) breathing;
      timestamp = env.now_milli;
    } in
    (heartbeat beat, accepting env p.proxy_push_chs)
