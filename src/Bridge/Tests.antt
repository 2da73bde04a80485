-- ===== src/Bridge/Tests.antt =====
-- internal/cluster/agent_raft_bridge.go: the theorems, applied to a short log.
use cue.Base.{
  ℕ, ◌*◌, ◌≡◌, refl, true, false, inl, List, [], ◌∷◌, Option, none, some, ok, err, done,
  if◌then◌else◌, ◌==◌,
}
use cue.Base.Int.{pos}
use cue.Base.Key.{string_key}
use cue.Model.{DonePayload, cmd_done}
use cue.Codec.{
  WireCommand, zero_command, PayloadType, PayloadOf, peers_list, add_node, remove_node,
  transfer_leader, add_jobs, done_jobs, drop_jobs, Msgpack, unmarshal_msgpack,
}
use cue.Topics.Handler.{channel_unavailable}
use cue.Bridge.{
  ClusterAgent, CommittedEntry, entry_normal, entry_conf_change, Handle, is_dead, process_entries,
  event_role_change, role_is_voter, handler_failed, command_of, dispatch_command,
}
use cue.Bridge.DeadJobs.{
  finishes, no_data, command, membership, ValidLog, no_entry, entry_then, named,
  process_entries-is_dead,
}
use cue.Bridge.Roles.{Agrees, all_notified, all_notified-Agrees}
use cue.Bridge.Faults.{Refused, dispatch_command-Refused}

abbrev finished : DonePayload
finished = record { topic = "mail"; job_ids = "a" ∷ [] }

first_of : List ℕ → Option ℕ
first_of [] = none
first_of (n ∷ ns) = some n

only_done : (t : PayloadType) → List ℕ → Option (PayloadOf t)
only_done peers_list bytes = none
only_done add_node bytes = none
only_done remove_node bytes = none
only_done transfer_leader bytes = none
only_done add_jobs bytes = none
only_done done_jobs bytes = some finished
only_done drop_jobs bytes = none

-- The bytes are the type of the command.
abbrev types_only : Msgpack
types_only = record {
  encode_array = λ a b c. a;
  decode_array = λ bytes. some (bytes, (bytes, bytes));
  encode_number = λ n. n ∷ [];
  decode_uint8 = first_of;
  decode_uint64 = first_of;
  encode_payload = λ t p. none;
  decode_payload = only_done;
}

abbrev agent : ClusterAgent
agent = record {
  is_voter = true;
  snapshot_index = 0;
  is_leader = false;
  leader_id = "";
  current_term = 0;
  status = 71;
  last_applied_index = 0;
  pending_proposals = [];
  dead_jobs = ("a", true) ∷ ("b", true) ∷ [];
  voters = [];
  learners = [];
  dlq_manager = none;
}

abbrev entry_of : Option (List ℕ) → CommittedEntry
entry_of payload = record {
  payload = payload;
  index = 1;
  term = 1;
  entry_type = entry_normal;
  voters = [];
  learners = [];
}

abbrev change : CommittedEntry
change = record (entry_of (some [])) { entry_type = entry_conf_change; voters = 1 ∷ [] }

-- The handler takes every command on, or none.
abbrev willing : Handle
willing topic cmd = done (ok none)

abbrev closed : Handle
closed topic cmd = done (err channel_unavailable)

abbrev log : List CommittedEntry
log = entry_of none ∷ entry_of (some (5 ∷ [])) ∷ change ∷ []

abbrev doubled : ℕ → ℕ
doubled n = n * 2

abbrev done_command : WireCommand
done_command = record zero_command { kind = 5; propose_id = 5; done_jobs = some finished }

log-ValidLog : ValidLog types_only (λ bytes. true) log ("a" ∷ [])
unfolding unmarshal_msgpack first_of only_done
log-ValidLog = entry_then (no_data refl refl) (
    entry_then (command (5 ∷ []) done_command refl refl refl (finishes finished refl refl))
      (entry_then (membership [] (inl refl) refl refl) no_entry))

process_entries-is_dead_example :
    (a' : ClusterAgent) × ((process_entries types_only
          (λ id. some "n")
          (λ bytes. true)
          doubled
          (pos 5)
          willing
          agent
          log
        ≡ done a')
      × (is_dead a'.dead_jobs "a"
          ≡ (if named "a" ("a" ∷ []) then false else is_dead agent.dead_jobs "a")))
process_entries-is_dead_example =
    process_entries-is_dead types_only (λ id. some "n") (λ bytes. true) doubled (pos 5) willing
      agent log ("a" ∷ []) "a" (λ topic cmd. (none, refl)) log-ValidLog

all_notified-Agrees_example :
    Agrees (all_notified (λ id. some "n") agent (event_role_change true 1 2 7 ∷ role_is_voter ∷ []))
all_notified-Agrees_example =
    all_notified-Agrees (λ id. some "n") agent (event_role_change true 1 2 7 ∷ role_is_voter ∷ [])
      refl

dispatch_command-Refused_example :
    Refused
      (if done_command.kind == cmd_done then some (handler_failed channel_unavailable) else none)
      (dispatch_command doubled (pos 5) closed agent (command_of done_command none))
dispatch_command-Refused_example =
    dispatch_command-Refused doubled (pos 5) closed channel_unavailable agent done_command none
      ("a" ∷ []) (λ topic cmd. refl) (finishes finished refl refl)
