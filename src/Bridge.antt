-- ===== src/Bridge.antt =====
-- internal/cluster/agent_raft_bridge.go: what the agent of a node does with the notifications of Raft
-- and with committed entries. `node_id_of` stands for the lookup of the discovery, `handle` for
-- `ProcessCommand` of the handler (internal/state/handler.go), the protobuf decoders of configuration
-- changes for whether they succeed, and the clock is an argument. Logging and metrics are left out.
pub mod DeadJobs
pub mod Roles
pub mod Faults
mod Tests
use cue.Base.{
  ℕ, ◌+◌, ◌-◌, Bool, true, false, not, List, [], ◌∷◌, ◌++◌, Option, none, some, String, map,
  if◌then◌else◌, length, ◌==◌, Result, ok, err, Run, done, panics, ◌>>=◌,
}
use cue.Base.Int.{ℤ}
use cue.Base.Key.{nat_key, string_key}
use cue.Base.Dict.{Dict, lookup, insert, erase}
use cue.Model.{
  Job, RespInfo, AddJobsPayload, DonePayload, DropPayload, Command, Channel, cmd_add_jobs, cmd_done,
  cmd_drop, ClusterNodeStatus, follower_active, unavailable, leader_active, to_uint32,
}
use cue.Codec.{WireCommand, zero_command, Msgpack, unmarshal_msgpack}
use cue.Topics.Handler.{HandlerError}
use cue.DlqFiles
use cue.DlqFiles.{DlqFileManager}

-- The fields of `ClusterAgent` that the bridge reads and writes, with `Members` in `voters` and
-- `learners`
pub record ClusterAgent : Type 0 where
  pub is_voter : Bool
  pub snapshot_index : ℕ
  pub is_leader : Bool
  pub leader_id : String
  pub current_term : ℕ
  pub status : ℕ
  pub last_applied_index : ℕ
  pub pending_proposals : Dict ℕ RespInfo
  pub dead_jobs : Dict String Bool
  pub voters : List String
  pub learners : List String
  pub dlq_manager : Option DlqFileManager

pub data EntryType : Type 0 where
  entry_normal entry_conf_change entry_conf_change_v2 entry_other : EntryType

pub record CommittedEntry : Type 0 where
  pub payload : Option (List ℕ)
  pub index : ℕ
  pub term : ℕ
  pub entry_type : EntryType
  pub voters : List ℕ
  pub learners : List ℕ

pub data Notification : Type 0 where
  role_is_voter role_is_non_voter : Notification
  wal_compact : (snapshot_index : ℕ) → Notification
  event_role_change : (is_leader : Bool) (leader_raft_id role term : ℕ) → Notification

-- The status of a role: `raft.StateFollower` is 0 and `raft.StateLeader` is 2.
unfoldable pub role_status : ℕ → ClusterNodeStatus
role_status role =
    if role == 2 then leader_active else if role == 0 then follower_active else unavailable

-- `applyRoleChange`
unfoldable pub apply_role_change :
    (node_id_of : ℕ → Option String)
    → ClusterAgent
    → Bool
    → (leader_raft_id role term : ℕ) → ClusterAgent
unfolding role_status
apply_role_change node_id_of a is_leader leader_raft_id role term = record a {
  leader_id = elim (node_id_of leader_raft_id) [ none ↦ "" | some id ↦ id ];
  current_term = term;
  is_leader = if role == 2 then true else false;
  status = to_uint32 (role_status role);
}

-- A case of `handleRaftNotifications`.
unfoldable pub notified :
    (node_id_of : ℕ → Option String) → ClusterAgent → Notification → ClusterAgent
unfolding apply_role_change
notified node_id_of a role_is_voter = record a { is_voter = true }
notified node_id_of a role_is_non_voter = record a { is_voter = false }
notified node_id_of a (wal_compact index) = record a { snapshot_index = index }
notified node_id_of a (event_role_change is_leader leader_raft_id role term) =
    apply_role_change node_id_of a is_leader leader_raft_id role term

-- The names that the discovery knows.
unfoldable pub known_ids : (node_id_of : ℕ → Option String) → List ℕ → List String
known_ids node_id_of [] = []
known_ids node_id_of (id ∷ ids) = elim (node_id_of id) [
  | none ↦ known_ids node_id_of ids
  | some name ↦ name ∷ known_ids node_id_of ids
]

pub data BridgeError : Type 0 where
  not_decoded payload_missing unknown_command : BridgeError
  handler_failed : HandlerError → BridgeError

-- What an entry leaves: the agent, the command that the handler took on, and the error that is returned.
pub record Applied : Type 0 where
  pub agent : ClusterAgent
  pub forwarded : Option (String × Command)
  pub failure : Option BridgeError

-- `handleConfigChange`; `handleConfChangeSingle` only logs.
unfoldable pub handle_config_change :
    (node_id_of : ℕ → Option String)
    → (decodes : List ℕ → Bool) → ClusterAgent
    → CommittedEntry
    → Applied
unfolding known_ids
handle_config_change node_id_of decodes a committed = record {
  agent = record a {
    voters = known_ids node_id_of committed.voters;
    learners = known_ids node_id_of committed.learners;
  };
  forwarded = none;
  failure =
      if decodes (elim committed.payload [ none ↦ [] | some bytes ↦ bytes ])
      then none
      else some not_decoded;
}

-- `a.deadJobs[id]`
unfoldable pub is_dead : Dict String Bool → String → Bool
is_dead dead id = elim (lookup id dead) [ none ↦ false | some b ↦ b ]

-- The loop over the added jobs: those that are left alive, and the jobs with the dead ones marked.
unfoldable pub count_alive : Dict String Bool → List Job → ℕ
unfolding is_dead
count_alive dead [] = 0
count_alive dead (job ∷ jobs) =
    let rest = count_alive dead jobs in if is_dead dead job.id then rest else rest + 1

unfoldable pub mark_dead : Dict String Bool → List Job → List Job
unfolding is_dead
mark_dead dead [] = []
mark_dead dead (job ∷ jobs) =
    let rest = mark_dead dead jobs in
    if is_dead dead job.id then record job { is_done = true } ∷ rest else job ∷ rest

-- `delete(a.deadJobs, id)` for each ID
unfoldable pub delete_dead : Dict String Bool → List String → Dict String Bool
delete_dead dead [] = dead
delete_dead dead (id ∷ ids) = delete_dead (erase id dead) ids

-- The command for the handler, with the response channel that `getAndRemovePendingResponse` found.
unfoldable pub command_of : WireCommand → Option RespInfo → Command
command_of c resp_info = record {
  kind = c.kind;
  add_jobs = c.add_jobs;
  done_jobs = c.done_jobs;
  drop_jobs = c.drop_jobs;
  resp_info = resp_info;
}

abbrev pub Handle : Type 0
Handle = String → Command → Run (Result HandlerError (Option Channel))

-- The handler's answer, where its error is returned and where it is not.
abbrev pub returned :
    ClusterAgent → String → Command → Result HandlerError (Option Channel) → Applied
returned a topic cmd (ok ch) = record { agent = a; forwarded = some (topic, cmd); failure = none }
returned a topic cmd (err e) = record {
  agent = a;
  forwarded = none;
  failure = some (handler_failed e);
}

abbrev pub ignored :
    ClusterAgent → String → Command → Result HandlerError (Option Channel) → Applied
ignored a topic cmd (ok ch) = record { agent = a; forwarded = some (topic, cmd); failure = none }
ignored a topic cmd (err e) = record { agent = a; forwarded = none; failure = none }

abbrev pub failing : ClusterAgent → BridgeError → Applied
failing a e = record { agent = a; forwarded = none; failure = some e }

-- The jobs for the handler; the topic is that of the first.
unfoldable pub forward_jobs : Handle → ClusterAgent → Command → List Job → Run Applied
forward_jobs handle a cmd [] = panics
forward_jobs handle a cmd (job ∷ jobs) =
    handle job.topic cmd >>= λ r. done (ignored a job.topic cmd r)

-- The test for the payload at the start of a case.
unfoldable pub required {ℓ} :
    {P : Type ℓ} → ClusterAgent → Option P → (P → Run Applied) → Run Applied
required a none f = done (failing a payload_missing)
required a (some p) f = f p

-- `case model.CmdAddJobs`, with these jobs
unfoldable pub add_jobs_case :
    Handle → ClusterAgent → Command → AddJobsPayload → List Job → Run Applied
unfolding count_alive mark_dead forward_jobs
add_jobs_case handle a cmd payload jobs =
    if count_alive a.dead_jobs jobs == 0
    then done (record { agent = a; forwarded = none; failure = none })
    else forward_jobs handle a
        (record cmd { add_jobs = some (record payload { jobs = mark_dead a.dead_jobs jobs }) })
        (mark_dead a.dead_jobs jobs)

-- `case model.CmdDone`
unfoldable pub done_case : Handle → ClusterAgent → Command → DonePayload → Run Applied
unfolding delete_dead
done_case handle a cmd payload =
    let a' = record a { dead_jobs = delete_dead a.dead_jobs payload.job_ids } in
    handle payload.topic cmd >>= λ r. done (returned a' payload.topic cmd r)

-- The lines for the files of dead letters, where the agent has them.
unfoldable pub persist_drop :
    (grown : ℕ → ℕ) (now : ℤ) → DropPayload → Option DlqFileManager → Option DlqFileManager
persist_drop grown now payload none = none
persist_drop grown now payload (some m) =
    some (DlqFiles.append_batch grown now payload.topic payload.job_ids m)

-- `case model.CmdDrop`
unfoldable pub drop_case :
    (grown : ℕ → ℕ) (now : ℤ) → Handle → ClusterAgent → Command → DropPayload → Run Applied
unfolding delete_dead persist_drop
drop_case grown now handle a cmd payload =
    let a' = record a {
      dead_jobs = delete_dead a.dead_jobs payload.job_ids;
      dlq_manager = persist_drop grown now payload a.dlq_manager;
    } in
    handle payload.topic cmd >>= λ r. done (ignored a' payload.topic cmd r)

-- The switch of `handleNormalCommand`.
unfoldable pub dispatch_command :
    (grown : ℕ → ℕ) (now : ℤ) → Handle → ClusterAgent → Command → Run Applied
unfolding required add_jobs_case done_case drop_case
dispatch_command grown now handle a cmd =
    if cmd.kind == cmd_add_jobs
    then required a cmd.add_jobs (λ p. add_jobs_case handle a cmd p p.jobs)
    else if cmd.kind == cmd_done
    then required a cmd.done_jobs (done_case handle a cmd)
    else if cmd.kind == cmd_drop
    then required a cmd.drop_jobs (drop_case grown now handle a cmd)
    else done (failing a unknown_command)

-- The rest of `handleNormalCommand`, with the data of the entry, and `getAndRemovePendingResponse`
unfoldable pub run_command :
    (k : Msgpack) (grown : ℕ → ℕ) (now : ℤ) → Handle → ClusterAgent → Option (List ℕ) → Run Applied
unfolding dispatch_command command_of
run_command k grown now handle a none =
    done (record { agent = a; forwarded = none; failure = none })
run_command k grown now handle a (some bytes) = elim (unmarshal_msgpack k zero_command bytes) [
  | err e ↦ done (failing a not_decoded)
  | ok c ↦
      dispatch_command grown now handle
        (record a { pending_proposals = erase c.propose_id a.pending_proposals })
        (command_of c (lookup c.propose_id a.pending_proposals))
]

-- `handleNormalCommand`
unfoldable pub handle_normal_command :
    (k : Msgpack) (grown : ℕ → ℕ) (now : ℤ) → Handle → ClusterAgent → CommittedEntry → Run Applied
unfolding run_command
handle_normal_command k grown now handle a committed =
    run_command k grown now handle (record a { last_applied_index = committed.index })
      committed.payload

-- The switch of `processCommittedEntry`.
unfoldable pub process_as :
    (k : Msgpack) (node_id_of : ℕ → Option String) (decodes : List ℕ → Bool) (grown : ℕ → ℕ)
    (now : ℤ)
    → Handle
    → ClusterAgent
    → CommittedEntry
    → EntryType
    → Run Applied
unfolding handle_normal_command handle_config_change
process_as k node_id_of decodes grown now handle a committed entry_normal =
    handle_normal_command k grown now handle a committed
process_as k node_id_of decodes grown now handle a committed entry_conf_change =
    done (handle_config_change node_id_of decodes a committed)
process_as k node_id_of decodes grown now handle a committed entry_conf_change_v2 =
    done (handle_config_change node_id_of decodes a committed)
process_as k node_id_of decodes grown now handle a committed entry_other =
    done (record { agent = a; forwarded = none; failure = none })

-- `processCommittedEntry`
unfoldable pub process_committed_entry :
    (k : Msgpack) (node_id_of : ℕ → Option String) (decodes : List ℕ → Bool) (grown : ℕ → ℕ)
    (now : ℤ)
    → Handle
    → ClusterAgent
    → CommittedEntry
    → Run Applied
unfolding process_as
process_committed_entry k node_id_of decodes grown now handle a committed =
    process_as k node_id_of decodes grown now handle (record a { current_term = committed.term })
      committed committed.entry_type

-- A round of the loop of `handleCommittedEntries`: an error is a panic.
unfoldable pub checked : Applied → Option BridgeError → Run ClusterAgent
checked r none = done r.agent
checked r (some e) = panics

-- `handleCommittedEntries` over these entries
unfoldable pub process_entries :
    (k : Msgpack) (node_id_of : ℕ → Option String) (decodes : List ℕ → Bool) (grown : ℕ → ℕ)
    (now : ℤ)
    → Handle
    → ClusterAgent
    → List CommittedEntry
    → Run ClusterAgent
unfolding process_committed_entry checked
process_entries k node_id_of decodes grown now handle a [] = done a
process_entries k node_id_of decodes grown now handle a (e ∷ es) =
    process_committed_entry k node_id_of decodes grown now handle a e
    >>= (λ r. checked r r.failure)
    >>= (λ a'. process_entries k node_id_of decodes grown now handle a' es)
