-- ===== src/Topics/Running.antt =====
-- internal/state/topic_manager.go: what `Run` makes of each command and of each way to end.
use cue.Base.{
  ◌+◌, ◌≡◌, refl, inl, inr, Bool, true, false, List, [], ◌∷◌, Option, none, some, String,
  if◌then◌else◌, Run, done, is_some, Option-cases, arith,
}
use cue.Base.Key.{string_key, ◌=?◌}
use cue.Base.Dict.{lookup, lookup-insert, lookup-erase}
use cue.Partition.State.{Env, TopologyUpdate}
use cue.Topics.{
  TopicManager, TopicCommand, TopicCommandType, spawn, kill, proxy_topology, unknown, Effect,
  get_channel, register, unregister, close, spawned, killed, handle_spawn, handle_kill,
  broadcast_topology_update, handle_by, handle, Event, received,
}
use cue.Topics.Registry.{IsValid, spawned-IsValid, killed-IsValid}

-- The topics of the manager, as the router of commands shows them.
abbrev pub registered : TopicManager → String → Bool
registered tm t = is_some (get_channel tm.cmd_router t)

-- What a command makes of the set of topics.
abbrev pub topics_after : TopicCommandType → String → (String → Bool) → String → Bool
topics_after spawn topic before t = if topic =? t then true else before t
topics_after kill topic before t = if topic =? t then false else before t
topics_after proxy_topology topic before t = before t
topics_after unknown topic before t = before t

pub record Handled (k : TopicCommandType) (topic : String) (tm tm' : TopicManager) : Type 0 where
  pub valid : IsValid tm'
  pub topics : (t : String) → registered tm' t ≡ topics_after k topic (registered tm) t
  pub cmd_ch_same : tm'.cmd_ch_closed ≡ tm.cmd_ch_closed
  pub once_same : tm'.stop_once ≡ tm.stop_once

-- The manager goes on, as `Handled` says.
abbrev pub Survives :
    TopicCommandType → String → TopicManager → Run (TopicManager × Effect) → Type 0
Survives k topic tm m = (r : TopicManager × Effect) × (m ≡ done r) × Handled k topic tm r.0

handle_spawn-Handled :
    (env : Env) (tm : TopicManager) (cmd : TopicCommand)
    → IsValid tm
    → Handled spawn cmd.topic tm (handle_spawn env tm cmd).0
unfolding handle_spawn get_channel spawned register
handle_spawn-Handled env tm cmd v = elim (Option-cases (lookup cmd.topic tm.stop_chs)) [
  | inl e ↦
      rw (e, handle_spawn)
        record {
          valid = spawned-IsValid tm cmd.topic v;
          topics =
              λ t. ground (arith, lookup-insert cmd.topic t (tm.next_ch + 2) tm.cmd_router.chs);
          cmd_ch_same = refl;
          once_same = refl;
        }
  | inr (ch, e) ↦
      rw (e, handle_spawn)
        record {
          valid = v;
          topics = λ t. ground (arith, e, v.commands_agree t, string_key.beq_iff cmd.topic t);
          cmd_ch_same = refl;
          once_same = refl;
        }
]

handle_kill-Survives :
    (env : Env) (tm : TopicManager) (cmd : TopicCommand)
    → IsValid tm
    → Survives kill cmd.topic tm (handle_kill env tm cmd)
unfolding handle_kill get_channel killed unregister close
handle_kill-Survives env tm cmd v = elim (Option-cases (lookup cmd.topic tm.stop_chs)) [
  | inl e ↦
      rw (e, handle_kill)
        (
          _,
          refl,
          record {
            valid = v;
            topics = λ t. ground (arith, e, v.commands_agree t, string_key.beq_iff cmd.topic t);
            cmd_ch_same = refl;
            once_same = refl;
          },
        )
  | inr (ch, e) ↦
      rw (e, handle_kill)
        (rw ((v.opened cmd.topic ch e).0, close)
          (
            _,
            refl,
            record {
              valid = killed-IsValid tm cmd.topic ch v e;
              topics = λ t. ground (arith, lookup-erase cmd.topic t tm.cmd_router.chs);
              cmd_ch_same = refl;
              once_same = refl;
            },
          ))
]

broadcast-Handled :
    (env : Env) (tm : TopicManager) (topic : String) (update : Option TopologyUpdate)
    → IsValid tm
    → Handled proxy_topology topic tm (broadcast_topology_update env tm update).0
unfolding broadcast_topology_update
broadcast-Handled env tm topic none v = record {
  valid = v;
  topics = λ t. refl;
  cmd_ch_same = refl;
  once_same = refl;
}
broadcast-Handled env tm topic (some update) v = record {
  valid = record {
    topology_agrees = v.topology_agrees;
    commands_agree = v.commands_agree;
    heartbeats_agree = v.heartbeats_agree;
    keyed = v.keyed;
    opened = v.opened;
    distinct = v.distinct;
    below = v.below;
  };
  topics = λ t. refl;
  cmd_ch_same = refl;
  once_same = refl;
}

-- No command makes a manager panic whose tables agree: a spawn adds its topic to the registered
-- ones, a kill takes it out, and nothing else changes them; the tables still agree.
pub handle-Survives :
    (env : Env) (tm : TopicManager) (cmd : TopicCommand)
    → IsValid tm
    → Survives cmd.kind cmd.topic tm (handle env tm cmd)
unfolding handle
handle-Survives env tm cmd v = by_kind cmd.kind
  where
    by_kind : (k : TopicCommandType) → Survives k cmd.topic tm (handle_by env tm cmd k)
    by_kind spawn = (_, refl, handle_spawn-Handled env tm cmd v)
    by_kind kill = handle_kill-Survives env tm cmd v
    by_kind proxy_topology = (_, refl, broadcast-Handled env tm cmd.topic cmd.topology v)
    by_kind unknown =
        (_, refl, record { valid = v; topics = λ t. refl; cmd_ch_same = refl; once_same = refl })

-- The commands, and then the event that ends the loop.
abbrev pub requests : List (Env × TopicCommand) → Event → List Event
requests [] last = last ∷ []
requests ((env, cmd) ∷ cmds) last = received env cmd ∷ requests cmds last
