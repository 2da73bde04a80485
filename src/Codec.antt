-- ===== src/Codec.antt =====
-- internal/model/command.go: the command as it is written to the log, [Type, ProposeID, Payload].
-- `msgpack` is the interface `Msgpack`, whose operations encode and decode an array of three, a number
-- and each type of payload.
pub mod RoundTrip
mod Tests
use cue.Base.{
  ℕ, ◌+◌, ◌^◌, ◌<◌, ◌≡◌, Bool, true, false, List, [], ◌∷◌, Option, none, some, String, map,
  if◌then◌else◌, ◌==◌, Result, ok, err,
}
use cue.Base.Int.{pos}
use cue.Model.{Job, AddJobsPayload, DonePayload, DropPayload, cmd_add_jobs, cmd_done, cmd_drop}

pub data IdentityKind : Type 0 where
  dns ip spiffe unknown_kind : IdentityKind

pub record TlsIdentity : Type 0 where
  pub kind : IdentityKind
  pub value : String

pub record PeerInfo : Type 0 where
  pub node_id : String
  pub host : String
  pub port : ℕ
  pub identity : TlsIdentity

pub record PeersListPayload : Type 0 where
  pub peers : List PeerInfo

pub record AddNodePayload : Type 0 where
  pub node_id : String

pub record RemoveNodePayload : Type 0 where
  pub node_id : String

pub record TransferLeaderPayload : Type 0 where
  pub target_node_id : String

-- `CommandType`: the numbers of the other Go constants
abbrev pub cmd_update_peers_list : ℕ
cmd_update_peers_list = 0

abbrev pub cmd_add_node : ℕ
cmd_add_node = 1

abbrev pub cmd_remove_node : ℕ
cmd_remove_node = 2

abbrev pub cmd_transfer_leader : ℕ
cmd_transfer_leader = 3

-- `Command`, without the response channel, which is not encoded
pub record WireCommand : Type 0 where
  pub kind : ℕ
  pub propose_id : ℕ
  pub peers : Option PeersListPayload
  pub add_node : Option AddNodePayload
  pub remove_node : Option RemoveNodePayload
  pub transfer : Option TransferLeaderPayload
  pub add_jobs : Option AddJobsPayload
  pub done_jobs : Option DonePayload
  pub drop_jobs : Option DropPayload

-- `var cmd Command`
abbrev pub zero_command : WireCommand
zero_command = record {
  kind = 0;
  propose_id = 0;
  peers = none;
  add_node = none;
  remove_node = none;
  transfer = none;
  add_jobs = none;
  done_jobs = none;
  drop_jobs = none;
}

pub data PayloadType : Type 0 where
  peers_list add_node remove_node transfer_leader add_jobs done_jobs drop_jobs : PayloadType

abbrev pub PayloadOf : PayloadType → Type 0
PayloadOf peers_list = PeersListPayload
PayloadOf add_node = AddNodePayload
PayloadOf remove_node = RemoveNodePayload
PayloadOf transfer_leader = TransferLeaderPayload
PayloadOf add_jobs = AddJobsPayload
PayloadOf done_jobs = DonePayload
PayloadOf drop_jobs = DropPayload

-- `msgpack.Marshal` and `msgpack.Unmarshal` at the types that the codec uses
pub record Msgpack : Type 0 where
  pub encode_array : List ℕ → List ℕ → List ℕ → List ℕ
  pub decode_array : List ℕ → Option (List ℕ × (List ℕ × List ℕ))
  pub encode_number : ℕ → List ℕ
  pub decode_uint8 : List ℕ → Option ℕ
  pub decode_uint64 : List ℕ → Option ℕ
  pub encode_payload : (t : PayloadType) → PayloadOf t → Option (List ℕ)
  pub decode_payload : (t : PayloadType) → List ℕ → Option (PayloadOf t)

pub data CodecError : Type 0 where
  payload_missing unknown_command not_encoded not_decoded : CodecError

-- A case of the switch of `MarshalMsgpack`, with the array at its end.
unfoldable pub marshal_as :
    (k : Msgpack) (t : PayloadType)
    → (kind propose_id : ℕ) → Option (PayloadOf t)
    → Result CodecError (List ℕ)
marshal_as k t kind propose_id none = err payload_missing
marshal_as k t kind propose_id (some p) = elim (k.encode_payload t p) [
  | none ↦ err not_encoded
  | some bytes ↦ ok (k.encode_array (k.encode_number (kind)) (k.encode_number propose_id) bytes)
]

-- `MarshalMsgpack`
unfoldable pub marshal_msgpack : Msgpack → WireCommand → Result CodecError (List ℕ)
unfolding marshal_as
marshal_msgpack k c =
    if c.kind == cmd_update_peers_list
    then marshal_as k peers_list c.kind c.propose_id c.peers
    else if c.kind == cmd_add_node
    then marshal_as k add_node c.kind c.propose_id c.add_node
    else if c.kind == cmd_remove_node
    then marshal_as k remove_node c.kind c.propose_id c.remove_node
    else if c.kind == cmd_transfer_leader
    then marshal_as k transfer_leader c.kind c.propose_id c.transfer
    else if c.kind == cmd_add_jobs
    then marshal_as k add_jobs c.kind c.propose_id c.add_jobs
    else if c.kind == cmd_done
    then marshal_as k done_jobs c.kind c.propose_id c.done_jobs
    else if c.kind == cmd_drop
    then marshal_as k drop_jobs c.kind c.propose_id c.drop_jobs
    else err unknown_command

-- A command with the payload of a type.
abbrev pub with_payload : (t : PayloadType) → PayloadOf t → WireCommand → WireCommand
with_payload peers_list p c = record c { peers = some p }
with_payload add_node p c = record c { add_node = some p }
with_payload remove_node p c = record c { remove_node = some p }
with_payload transfer_leader p c = record c { transfer = some p }
with_payload add_jobs p c = record c { add_jobs = some p }
with_payload done_jobs p c = record c { done_jobs = some p }
with_payload drop_jobs p c = record c { drop_jobs = some p }

-- A case of the switch of `UnmarshalMsgpack`.
unfoldable pub unmarshal_as :
    Msgpack → PayloadType → WireCommand → List ℕ → Result CodecError WireCommand
unmarshal_as k t c bytes = elim (k.decode_payload t bytes) [
  | none ↦ err not_decoded
  | some p ↦ ok (with_payload t p c)
]

-- The switch of `UnmarshalMsgpack`.
unfoldable pub unmarshal_payload : Msgpack → WireCommand → List ℕ → Result CodecError WireCommand
unfolding unmarshal_as
unmarshal_payload k c bytes =
    if c.kind == cmd_update_peers_list
    then unmarshal_as k peers_list c bytes
    else if c.kind == cmd_add_node
    then unmarshal_as k add_node c bytes
    else if c.kind == cmd_remove_node
    then unmarshal_as k remove_node c bytes
    else if c.kind == cmd_transfer_leader
    then unmarshal_as k transfer_leader c bytes
    else if c.kind == cmd_add_jobs
    then unmarshal_as k add_jobs c bytes
    else if c.kind == cmd_done
    then unmarshal_as k done_jobs c bytes
    else if c.kind == cmd_drop
    then unmarshal_as k drop_jobs c bytes
    else err unknown_command

-- `UnmarshalMsgpack`, into a command
unfoldable pub unmarshal_msgpack : Msgpack → WireCommand → List ℕ → Result CodecError WireCommand
unfolding unmarshal_payload
unmarshal_msgpack k c bytes = elim (k.decode_array bytes) [
  | none ↦ err not_decoded
  | some (kind, (propose_id, payload)) ↦ elim (k.decode_uint8 kind) [
    | none ↦ err not_decoded
    | some kind' ↦ elim (k.decode_uint64 propose_id) [
      | none ↦ err not_decoded
      | some propose_id' ↦
          unmarshal_payload k (record c { kind = kind'; propose_id = propose_id' }) payload
    ]
  ]
]
