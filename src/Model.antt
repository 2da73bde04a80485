-- ===== src/Model.antt =====
-- internal/model/command.go, model.go and status.go: the data that travels between the components.
-- Texts are native strings, byte slices are lists of numbers, a Go pointer that may be nil is an
-- `Option`, and a channel is a number that stands for the Go channel.
use cue.Base.{ℕ, Bool, false, List, [], String, Option, ◌==◌, if◌then◌else◌}
use cue.Base.Int.{ℤ, pos}

pub record Job : Type 0 where
  pub id : String
  pub topic : String
  pub bytes : List ℕ
  pub is_done : Bool
  pub created_at : ℤ

-- `var zero model.Job`
abbrev pub zero_job : Job
zero_job = record { id = ""; topic = ""; bytes = []; is_done = false; created_at = pos 0 }

abbrev pub Channel : Type 0
Channel = ℕ

-- `ToProducerRespStatus`
pub data RespStatus : Type 0 where
  success failure : RespStatus

-- `FailQueueFull`
abbrev pub fail_queue_full : ℕ
fail_queue_full = 2

pub record JobFailure : Type 0 where
  pub job_id : String
  pub reason : ℕ

pub record ToProducerResponse : Type 0 where
  pub request_id : ℕ
  pub status : RespStatus
  pub error : String
  pub failures : List JobFailure

pub record RespInfo : Type 0 where
  pub request_id : ℕ
  pub resp_ch : Option Channel

pub record AddJobsPayload : Type 0 where
  pub topic : String
  pub jobs : List Job

pub record DonePayload : Type 0 where
  pub topic : String
  pub job_ids : List String

pub record DropPayload : Type 0 where
  pub topic : String
  pub job_ids : List String

-- `CommandType`: the numbers of the Go constants
abbrev pub cmd_add_jobs : ℕ
cmd_add_jobs = 4

abbrev pub cmd_done : ℕ
cmd_done = 5

abbrev pub cmd_drop : ℕ
cmd_drop = 6

-- The fields of `Command` that a partition reads.
pub record Command : Type 0 where
  pub kind : ℕ
  pub add_jobs : Option AddJobsPayload
  pub done_jobs : Option DonePayload
  pub drop_jobs : Option DropPayload
  pub resp_info : Option RespInfo

pub record PartitionHeartbeat : Type 0 where
  pub topic : String
  pub can_accept : Bool
  pub timestamp : ℤ

pub record ToConsumerMessage : Type 0 where
  pub topic : String
  pub proxy_id : String
  pub jobs : List Job

-- `ToGatewayMessage`: each type with the field that it uses
pub data ToGatewayMessage : Type 0 where
  consumer : List ℕ → ToGatewayMessage
  heartbeat : PartitionHeartbeat → ToGatewayMessage

pub record ProxyHeartbeat : Type 0 where
  pub proxy_id : String
  pub topic : String
  pub consumption_score : ℤ
  pub timestamp : ℤ

-- `ClusterNodeStatus`
pub data ClusterNodeStatus : Type 0 where
  follower_active unavailable leader_active : ClusterNodeStatus

-- `ToUin32`
unfoldable pub to_uint32 : ClusterNodeStatus → ℕ
to_uint32 follower_active = 71
to_uint32 unavailable = 72
to_uint32 leader_active = 73

-- `ClusterNodeStatusFromUint32`
unfoldable pub status_from_uint32 : ℕ → ClusterNodeStatus
status_from_uint32 value =
    if value == 71 then follower_active else if value == 73 then leader_active else unavailable

-- `ToProxyMessage`, of the type `ProxyMessageOutbound`
pub data ToProxyMessage : Type 0 where
  outbound : ToConsumerMessage → ToProxyMessage
