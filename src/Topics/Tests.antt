-- ===== src/Topics/Tests.antt =====
-- internal/state/topic_manager.go and handler.go: the theorems, applied to a new manager.
use cue.Base.{◌≡◌, refl, List, [], ◌∷◌, length, String, none, some, true, arith, ok, done, panics}
use cue.Base.Int.{pos}
use cue.Base.Key.{string_key}
use cue.Base.Dict.{lookup, insert}
use cue.Model.{Channel, Command, ToProducerResponse, success}
use cue.Partition.State.{PartitionConfig, Partition, Env, adds, new_partition}
use cue.Topics.{
  new_router, new_topic_manager, TopicManager, TopicCommand, spawn, Effect, handle, handle_spawn,
  get_channel, run, cancelled, channel_closed, learn,
}
use cue.Topics.Registry.{IsValid}
use cue.Topics.Running.{Survives, handle-Survives, requests}
use cue.Topics.Stopping.{Stopped, run-cancelled, run-channel_closed}
use cue.Topics.Learning.{handle_spawn-catches_up, hear_all}
use cue.Topics.Handler.{process_command, process_command-spawns, spawning, responded}

abbrev config : PartitionConfig
config = record {
  active_queue_capacity = 4;
  max_retries = pos 3;
  max_backoff_sec = pos 9;
  dispatch_batch_size = pos 2;
  dlq_max_bytes = pos 100;
  dlq_max_age_ms = pos 100;
}

-- The status of a leader, at a second, with channels that take all.
abbrev env : Env
env = record {
  now_sec = pos 1;
  now_milli = pos 1000;
  status = 73;
  free = λ ch. 4;
  accepts = λ ch. true;
}

abbrev manager : TopicManager
manager = new_topic_manager new_router new_router config 10

manager-IsValid : IsValid manager
unfolding new_topic_manager lookup
manager-IsValid = record {
  topology_agrees = λ t. refl;
  commands_agree = λ t. refl;
  heartbeats_agree = λ t. refl;
  keyed = tt;
  opened = λ t ch e. ground (arith, e);
  distinct = λ t u ch e f. ground (arith, e);
  below = λ ch e. ground (arith, e);
}

abbrev request : TopicCommand
request = spawning "mails" 1 7

handle-Survives_example : Survives spawn "mails" manager (handle env manager request)
handle-Survives_example = handle-Survives env manager request manager-IsValid

run-cancelled_example :
    (r : TopicManager × List Effect) × (run manager (requests ((env, request) ∷ []) cancelled)
      ≡ done r)
    × Stopped r.0
    × (length r.1 ≡ 1)
unfolding new_topic_manager
run-cancelled_example = run-cancelled manager ((env, request) ∷ []) manager-IsValid refl refl

-- The manager whose command channel was closed by its sender.
abbrev orphan : TopicManager
orphan = record manager { cmd_ch_closed = true }

orphan-IsValid : IsValid orphan
orphan-IsValid = record {
  topology_agrees = manager-IsValid.topology_agrees;
  commands_agree = manager-IsValid.commands_agree;
  heartbeats_agree = manager-IsValid.heartbeats_agree;
  keyed = manager-IsValid.keyed;
  opened = manager-IsValid.opened;
  distinct = manager-IsValid.distinct;
  below = manager-IsValid.below;
}

run-channel_closed_example : run orphan (requests ((env, request) ∷ []) channel_closed) ≡ panics
unfolding new_topic_manager
run-channel_closed_example =
    run-channel_closed orphan ((env, request) ∷ []) orphan-IsValid refl refl

-- A manager that learned of a proxy.
abbrev informed : TopicManager
informed = record manager { current_topology = ("a", adds "a" (some 5)) ∷ [] }

handle_spawn-catches_up_example :
    (p : Partition) × ((handle_spawn env informed request).1.started ≡ some p)
    × ((id : String)
        → lookup id p.proxy_push_chs
          ≡ lookup id
              (hear_all
                (new_partition "mails" config (pos 1000))
                (adds "a" (some 5) ∷ [])).proxy_push_chs)
unfolding new_topic_manager lookup learn insert
handle_spawn-catches_up_example =
    handle_spawn-catches_up env informed request (adds "a" (some 5) ∷ []) refl (tt, tt) refl

abbrev no_command : Command
no_command = record {
  kind = 4;
  add_jobs = none;
  done_jobs = none;
  drop_jobs = none;
  resp_info = none;
}

abbrev answer : ToProducerResponse
answer = record { request_id = 1; status = success; error = ""; failures = [] }

process_command-spawns_example :
    (ch : Channel) × (process_command manager.cmd_router "mails"
        (some no_command)
        true
        (λ n. responded answer (handle_spawn env manager request).0.cmd_router)
        (λ c. true)
      ≡ done (ok (some ch)))
    × (get_channel (handle_spawn env manager request).0.cmd_router "mails" ≡ some ch)
unfolding new_topic_manager lookup get_channel handle_spawn
process_command-spawns_example =
    process_command-spawns env manager "mails" 1 7 no_command
      (λ n. responded answer (handle_spawn env manager request).0.cmd_router) (λ c. true) answer
      manager-IsValid refl refl refl (λ c. refl)
