-- ===== src/Topics.antt =====
-- internal/state/topic_manager.go and router.go: the topics of a node. The manager's goroutine takes
-- one command at a time. `make` numbers the channels, and `close` of a closed channel panics. The
-- sleeps, the metrics and the logger are left out; a started partition is a result of the operation.
pub mod Registry
pub mod Running
pub mod Stopping
pub mod Learning
pub mod Handler
mod Tests
use cue.Base.{
  ℕ, zero, suc, ◌+◌, Bool, true, false, List, [], ◌∷◌, Option, none, some, String, if◌then◌else◌,
  ◌==◌, map, Run, done, panics, ◌>>=◌, is_some,
}
use cue.Base.Key.{string_key}
use cue.Base.Dict.{Dict, lookup, insert, erase}
use cue.Model.{Channel, RespStatus, success, failure, ToProducerResponse}
use cue.Partition.State.{
  PartitionConfig, Partition, Env, new_partition, TopologyUpdate, adds, removes,
  handle_topology_update, accepting,
}

-- `CommandRouter` and `HeartbeatRouter`, which differ in the type of the channels only
pub record Router : Type 0 where
  pub chs : Dict String Channel

abbrev pub new_router : Router
new_router = record { chs = [] }

unfoldable pub get_channel : Router → String → Option Channel
get_channel r topic = lookup topic r.chs

unfoldable pub register : Router → String → Channel → Router
register r topic ch = record { chs = insert topic ch r.chs }

unfoldable pub unregister : Router → String → Router
unregister r topic = record { chs = erase topic r.chs }

-- `TopicCommandType`, with any other text
pub data TopicCommandType : Type 0 where
  spawn kill proxy_topology unknown : TopicCommandType

pub record TopicCommand : Type 0 where
  pub kind : TopicCommandType
  pub topic : String
  pub request_id : ℕ
  pub resp_ch : Option Channel
  pub topology : Option TopologyUpdate

pub record TopicManager : Type 0 where
  pub stop_chs : Dict String Channel
  pub topology_chs : Dict String Channel
  pub cmd_router : Router
  pub hb_router : Router
  pub config : PartitionConfig
  pub current_topology : Dict String TopologyUpdate
  pub stop_once : Bool
  pub cmd_ch_closed : Bool
  -- the channels that are closed, and the number of the next one that is made
  pub closed : List Channel
  pub next_ch : Channel

-- `NewTopicManager`, with the two routers that the node shares
unfoldable pub new_topic_manager :
    Router → Router → PartitionConfig → (next_ch : Channel) → TopicManager
new_topic_manager cmd_router hb_router config next_ch = record {
  stop_chs = [];
  topology_chs = [];
  cmd_router = cmd_router;
  hb_router = hb_router;
  config = config;
  current_topology = [];
  stop_once = false;
  cmd_ch_closed = false;
  closed = [];
  next_ch = next_ch;
}

-- What an operation does outside the manager: the partition that it starts, the answer that its
-- sender takes, and the partitions' channels that take an update.
pub record Effect : Type 0 where
  pub started : Option Partition
  pub answer : Option ToProducerResponse
  pub told : List Channel

abbrev pub no_effect : Effect
no_effect = record { started = none; answer = none; told = [] }

-- `cmd.RespCh <- resp`, which does not wait
abbrev pub answering : Env → TopicCommand → RespStatus → String → Option ToProducerResponse
answering env cmd status error = elim cmd.resp_ch [
  | none ↦ none
  | some ch ↦
      if env.accepts ch
      then some
          record { request_id = cmd.request_id; status = status; error = error; failures = [] }
      else none
]

abbrev pub is_closed : Channel → List Channel → Bool
is_closed ch [] = false
is_closed ch (c ∷ cs) = if ch == c then true else is_closed ch cs

-- `close`
unfoldable pub close : Channel → List Channel → Run (List Channel)
close ch closed = elim (is_closed ch closed) [ true ↦ panics | false ↦ done (ch ∷ closed) ]

-- The loop of `broadcastTopologyUpdate` before the partitions hear of it.
unfoldable pub learn : Dict String TopologyUpdate → TopologyUpdate → Dict String TopologyUpdate
learn m (adds proxy_id push_ch) = insert proxy_id (adds proxy_id push_ch) m
learn m (removes proxy_id) = erase proxy_id m

-- `broadcastTopologyUpdate`
unfoldable pub broadcast_topology_update :
    Env → TopicManager → Option TopologyUpdate → TopicManager × Effect
unfolding learn accepting
broadcast_topology_update env tm none = (tm, no_effect)
broadcast_topology_update env tm (some update) = (
  record tm { current_topology = learn tm.current_topology update },
  record no_effect { told = accepting env tm.topology_chs },
)

-- `for _, update := range tm.currentTopology { partition.HandleTopologyUpdate(update) }`
unfoldable pub teach : Partition → Dict String TopologyUpdate → Partition
teach p [] = p
teach p ((id, update) ∷ m) = teach (handle_topology_update p update) m

-- The manager with the four channels of a new topic.
unfoldable pub spawned : TopicManager → String → TopicManager
spawned tm topic = record tm {
  stop_chs = insert topic tm.next_ch tm.stop_chs;
  topology_chs = insert topic (tm.next_ch + 1) tm.topology_chs;
  cmd_router = register tm.cmd_router topic (tm.next_ch + 2);
  hb_router = register tm.hb_router topic (tm.next_ch + 3);
  next_ch = tm.next_ch + 4;
}

-- `handleSpawn`
unfoldable pub handle_spawn : Env → TopicManager → TopicCommand → TopicManager × Effect
unfolding spawned teach
handle_spawn env tm cmd = elim (lookup cmd.topic tm.stop_chs) [
  | some ch ↦ (tm, record no_effect { answer = answering env cmd failure "topic already exists" })
  | none ↦ (
    spawned tm cmd.topic,
    record no_effect {
      started = some (teach (new_partition cmd.topic tm.config env.now_milli) tm.current_topology);
      answer = answering env cmd success "";
    },
  )
]

-- The manager without a topic, whose stop channel is closed.
unfoldable pub killed : TopicManager → String → List Channel → TopicManager
killed tm topic closed = record tm {
  stop_chs = erase topic tm.stop_chs;
  topology_chs = erase topic tm.topology_chs;
  cmd_router = unregister tm.cmd_router topic;
  hb_router = unregister tm.hb_router topic;
  closed = closed;
}

-- `handleKill`
unfoldable pub handle_kill : Env → TopicManager → TopicCommand → Run (TopicManager × Effect)
unfolding killed close
handle_kill env tm cmd = elim (lookup cmd.topic tm.stop_chs) [
  | none ↦ done (tm, record no_effect { answer = answering env cmd failure "topic not found" })
  | some stop_ch ↦ close stop_ch tm.closed >>= λ closed.
      done (killed tm cmd.topic closed, record no_effect { answer = answering env cmd success "" })
]

-- The `switch` of `Run`, on the type of the command.
unfoldable pub handle_by :
    Env → TopicManager → TopicCommand → TopicCommandType → Run (TopicManager × Effect)
unfolding handle_spawn handle_kill broadcast_topology_update
handle_by env tm cmd spawn = done (handle_spawn env tm cmd)
handle_by env tm cmd kill = handle_kill env tm cmd
handle_by env tm cmd proxy_topology = done (broadcast_topology_update env tm cmd.topology)
handle_by env tm cmd unknown =
    done (tm, record no_effect { answer = answering env cmd failure "invalid payload" })

unfoldable pub handle : Env → TopicManager → TopicCommand → Run (TopicManager × Effect)
unfolding handle_by
handle env tm cmd = handle_by env tm cmd cmd.kind

-- `for _, stopCh := range tm.stopChs { close(stopCh) }`
unfoldable pub close_all : Dict String Channel → List Channel → Run (List Channel)
unfolding close
close_all [] closed = done closed
close_all ((topic, ch) ∷ m) closed = close ch closed >>= λ closed'. close_all m closed'

-- `Stop`, where the stop channels are closed: `close(tm.cmdCh)`
unfoldable pub stopped_with : TopicManager → List Channel → Run TopicManager
stopped_with tm closed =
    if tm.cmd_ch_closed
    then panics
    else done (record tm { stop_once = true; closed = closed; cmd_ch_closed = true })

-- `Stop`
unfoldable pub stop : TopicManager → Run TopicManager
unfolding close_all stopped_with
stop tm = if tm.stop_once then done tm else (close_all tm.stop_chs tm.closed >>= stopped_with tm)

-- What wakes `Run`: the context is cancelled, or the command channel has a command, or is closed.
pub data Event : Type 0 where
  cancelled channel_closed : Event
  received : Env → TopicCommand → Event

-- `Run`: the manager when it has read the events, or stopped, and the effects on the way.
unfoldable pub run : TopicManager → List Event → Run (TopicManager × List Effect)
unfolding handle stop
run tm [] = done (tm, [])
run tm (cancelled ∷ events) = stop tm >>= λ tm'. done (tm', [])
run tm (channel_closed ∷ events) = stop tm >>= λ tm'. done (tm', [])
run tm (received env cmd ∷ events) = handle env tm cmd >>= λ (tm', effect).
    run tm' events >>= λ (tm'', effects). done (tm'', effect ∷ effects)
