-- ===== src/Partition/Loop.antt =====
-- internal/state/partition.go: `Run`, the loop of a partition's goroutine, over the sequence of cases
-- that its `select` takes. Each round has its own clock and channels, and its output is what it sends.
use cue.Base.{List, [], ◌∷◌, Option, Run, done, ◌>>=◌, ℕ}
use cue.Model.{Command, Channel, ProxyHeartbeat, ToGatewayMessage, ToProxyMessage}
use cue.Partition.State.{
  Partition, Env, TopologyUpdate, handle_topology_update, handle_heartbeat, cleanup_proxy_map,
  broadcast_partition_heartbeat,
}
use cue.Partition.Commands.{Response, handle_command, flush_dlq_if_needed}
use cue.Partition.Dispatch.{Sent, dispatch}

-- The cases of the `select`, but for the stop channel.
pub data PartitionEvent : Type 0 where
  topology : TopologyUpdate → PartitionEvent
  heartbeat : ProxyHeartbeat → PartitionEvent
  command : Command → PartitionEvent
  cleanup_tick heartbeat_tick tick : PartitionEvent

pub data Output : Type 0 where
  silent : Output
  answered : Response → Output
  beat : ToGatewayMessage × List Channel → Output
  ticked : Sent → Option Command → Output

module _ (marshal : ToProxyMessage → Option (List ℕ)) where
  -- A case of the `select`.
  unfoldable pub run_event : Env → Partition → PartitionEvent → Run (Partition × Output)
  run_event env p (topology update) = done (handle_topology_update p update, silent)
  run_event env p (heartbeat hb) = handle_heartbeat p hb >>= λ p'. done (p', silent)
  run_event env p (command cmd) =
      handle_command env p cmd >>= λ (p', response). done (p', answered response)
  run_event env p cleanup_tick = cleanup_proxy_map p env >>= λ p'. done (p', silent)
  run_event env p heartbeat_tick = done (p, beat (broadcast_partition_heartbeat p env))
  run_event env p tick = dispatch marshal env p >>= λ (p', sent).
      flush_dlq_if_needed env p' >>= λ (p'', proposed). done (p'', ticked sent proposed)

  -- The rounds before a stop, with what they send.
  unfoldable pub run_events :
      Partition → List (Env × PartitionEvent) → Run (Partition × List Output)
  unfolding run_event
  run_events p [] = done (p, [])
  run_events p ((env, e) ∷ es) =
      run_event env p e >>= λ (p', out). run_events p' es >>= λ (p'', outs). done (p'', out ∷ outs)

  -- `Run`: the rounds, and the flush when it is stopped
  unfoldable pub run_partition :
      Partition
      → List (Env × PartitionEvent)
      → (last : Env) → Run (Partition × (List Output × Option Command))
  unfolding run_events
  run_partition p es last = run_events p es >>= λ (p', outs).
      flush_dlq_if_needed last p' >>= λ (p'', proposed). done (p'', (outs, proposed))
