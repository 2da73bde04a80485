-- ===== src/Codec/Tests.antt =====
-- internal/model/command.go: the theorems, applied to a small encoding.
use cue.Base.{
  if◌then◌else◌, ◌&&◌, ℕ, ◌≡◌, refl, List, [], ◌∷◌, ◌++◌, Option, none, some, String, ok, arith,
  length, take, drop,
}
use cue.Base.Key.{string_key}
use cue.Base.{take-length_append, drop-length_append}
use cue.Model.{DonePayload}
use cue.Codec.{
  WireCommand, zero_command, PayloadType, PayloadOf, peers_list, add_node, remove_node,
  transfer_leader, add_jobs, done_jobs, drop_jobs, Msgpack, marshal_msgpack, unmarshal_msgpack,
  with_payload,
}
use cue.Codec.RoundTrip.{IsMsgpack, as_sent, Carries, unmarshal_msgpack-marshal_msgpack}

array_of : List ℕ → List ℕ → List ℕ → List ℕ
array_of a b c = length a ∷ length b ∷ (a ++ (b ++ c))

split_array : List ℕ → Option (List ℕ × (List ℕ × List ℕ))
split_array [] = none
split_array (m ∷ []) = none
split_array (m ∷ n ∷ rest) = some (take m rest, (take n (drop m rest), drop n (drop m rest)))

number_of : List ℕ → Option ℕ
number_of [] = none
number_of (n ∷ ns) = some n

-- The one payload that the encoding knows.
abbrev finished : DonePayload
finished = record { topic = "mail"; job_ids = "a" ∷ [] }

encode_done : (topic : String) → List String → Option (List ℕ)
encode_done topic [] = none
encode_done topic (x ∷ []) =
    if string_key.beq topic "mail" && string_key.beq x "a" then some (1 ∷ []) else none
encode_done topic (x ∷ y ∷ ids) = none

encode_one : (t : PayloadType) → PayloadOf t → Option (List ℕ)
encode_one peers_list p = none
encode_one add_node p = none
encode_one remove_node p = none
encode_one transfer_leader p = none
encode_one add_jobs p = none
encode_one done_jobs p = encode_done p.topic p.job_ids
encode_one drop_jobs p = none

decode_one : (t : PayloadType) → List ℕ → Option (PayloadOf t)
decode_one peers_list bytes = none
decode_one add_node bytes = none
decode_one remove_node bytes = none
decode_one transfer_leader bytes = none
decode_one add_jobs bytes = none
decode_one done_jobs bytes = some finished
decode_one drop_jobs bytes = none

abbrev toy : Msgpack
toy = record {
  encode_array = array_of;
  decode_array = split_array;
  encode_number = λ n. n ∷ [];
  decode_uint8 = number_of;
  decode_uint64 = number_of;
  encode_payload = encode_one;
  decode_payload = decode_one;
}

split_array-array_of : (a b c : List ℕ) → split_array (array_of a b c) ≡ some (a, (b, c))
unfolding split_array array_of
split_array-array_of a b c =
    rw
      (
        take-length_append a (b ++ c),
        drop-length_append a (b ++ c),
        take-length_append b c,
        drop-length_append b c,
      )
      refl

encode_done-finished :
    (topic : String) (ids : List String) (bytes : List ℕ)
    → encode_done topic ids ≡ some bytes
    → some finished ≡ some (record { topic = topic; job_ids = ids })
unfolding encode_done
encode_done-finished topic [] bytes h = absurd cc
encode_done-finished topic (x ∷ []) bytes h =
    ground (arith, h, string_key.beq_iff topic "mail", string_key.beq_iff x "a")
encode_done-finished topic (x ∷ y ∷ ids) bytes h = absurd cc

decode_one-encode_one :
    (t : PayloadType) (p : PayloadOf t) (bytes : List ℕ)
    → encode_one t p ≡ some bytes
    → decode_one t bytes ≡ some (as_sent t p)
unfolding encode_one decode_one
decode_one-encode_one peers_list p bytes h = absurd cc
decode_one-encode_one add_node p bytes h = absurd cc
decode_one-encode_one remove_node p bytes h = absurd cc
decode_one-encode_one transfer_leader p bytes h = absurd cc
decode_one-encode_one add_jobs p bytes h = absurd cc
decode_one-encode_one done_jobs p bytes h = encode_done-finished p.topic p.job_ids bytes h
decode_one-encode_one drop_jobs p bytes h = absurd cc

toy-IsMsgpack : IsMsgpack toy
unfolding number_of
toy-IsMsgpack = record {
  array = split_array-array_of;
  uint8 = λ n h. refl;
  uint64 = λ n h. refl;
  payload = decode_one-encode_one;
}

abbrev done_command : WireCommand
done_command = record zero_command { kind = 5; propose_id = 9; done_jobs = some finished }

unmarshal_msgpack-marshal_msgpack_example :
    (t : PayloadType) × (p : PayloadOf t) × (Carries done_command t p
      × (unmarshal_msgpack toy zero_command (1 ∷ 1 ∷ 5 ∷ 9 ∷ 1 ∷ [])
          ≡ ok (with_payload t (as_sent t p) (record zero_command { kind = 5; propose_id = 9 }))))
unfolding marshal_msgpack encode_one array_of encode_done
unmarshal_msgpack-marshal_msgpack_example =
    unmarshal_msgpack-marshal_msgpack toy done_command (1 ∷ 1 ∷ 5 ∷ 9 ∷ 1 ∷ []) toy-IsMsgpack
      (omega arith) refl
