-- ===== src/Codec/RoundTrip.antt =====
-- internal/model/command.go: a command that was encoded is decoded.
use cue.Base.{
  ℕ, ◌^◌, ◌<◌, ◌≡◌, refl, sym, ap, ◌∙◌, Bool, true, false, List, Option, none, some, map,
  if◌then◌else◌, ◌==◌, Result, ok, err, arith,
}
use cue.Base.Int.{pos}
use cue.Model.{Job}
use cue.Codec.{
  WireCommand, zero_command, PayloadType, PayloadOf, peers_list, add_node, remove_node,
  transfer_leader, add_jobs, done_jobs, drop_jobs, Msgpack, CodecError, unknown_command,
  not_encoded, marshal_as, marshal_msgpack, with_payload, unmarshal_as, unmarshal_payload,
  unmarshal_msgpack,
}

-- A job as it is sent: `Done` and `CreatedAt` stay behind.
abbrev pub sent_job : Job → Job
sent_job job = record job { is_done = false; created_at = pos 0 }

abbrev pub as_sent : (t : PayloadType) → PayloadOf t → PayloadOf t
as_sent peers_list p = p
as_sent add_node p = p
as_sent remove_node p = p
as_sent transfer_leader p = p
as_sent add_jobs p = record p { jobs = map sent_job p.jobs }
as_sent done_jobs p = p
as_sent drop_jobs p = p

-- The documented behaviour of msgpack: what was encoded is decoded at its type.
pub record IsMsgpack (k : Msgpack) : Type 0 where
  pub array : (a b c : List ℕ) → k.decode_array (k.encode_array a b c) ≡ some (a, (b, c))
  pub uint8 : (n : ℕ) → n < 2 ^ 8 → k.decode_uint8 (k.encode_number n) ≡ some n
  pub uint64 : (n : ℕ) → n < 2 ^ 64 → k.decode_uint64 (k.encode_number n) ≡ some n
  pub payload :
      (t : PayloadType) (p : PayloadOf t) (bytes : List ℕ)
      → k.encode_payload t p ≡ some bytes
      → k.decode_payload t bytes ≡ some (as_sent t p)

abbrev chain {ℓ} : {A : Type ℓ} (n : ℕ) (x0 x1 x2 x3 x4 x5 x6 x7 : A) → A
chain n x0 x1 x2 x3 x4 x5 x6 x7 =
    if n == 0
    then x0
    else if n == 1
    then x1
    else if n == 2
    then x2
    else if n == 3
    then x3
    else if n == 4
    then x4
    else if n == 5
    then x5
    else if n == 6
    then x6
    else x7

ap-else {ℓ κ} :
    {A : Type ℓ} {B : Type κ} (f : A → B) (b : Bool) (x r : A) (s : B)
    → f r ≡ s
    → f (if b then x else r) ≡ (if b then f x else s)
ap-else f true x r s h = refl
ap-else f false x r s h = h

ap-chain {ℓ κ} :
    {A : Type ℓ} {B : Type κ} (f : A → B) (n : ℕ) (x0 x1 x2 x3 x4 x5 x6 x7 : A)
    → f (chain n x0 x1 x2 x3 x4 x5 x6 x7)
      ≡ chain n (f x0) (f x1) (f x2) (f x3) (f x4) (f x5) (f x6) (f x7)
ap-chain f n x0 x1 x2 x3 x4 x5 x6 x7 = ap-else f (n == 0) x0 _ _ (
    ap-else f (n == 1) x1 _ _ (
      ap-else f (n == 2) x2 _ _ (
        ap-else f (n == 3) x3 _ _ (
          ap-else f (n == 4) x4 _ _ (ap-else f (n == 5) x5 _ _ (ap-else f (n == 6) x6 _ _ refl))))))

-- The payload that a type of command has.
abbrev pub type_of : ℕ → Option PayloadType
type_of n =
    chain n (some peers_list) (some add_node) (some remove_node) (some transfer_leader)
      (some add_jobs) (some done_jobs) (some drop_jobs) none

abbrev pub payload_of : (t : PayloadType) → WireCommand → Option (PayloadOf t)
payload_of peers_list c = c.peers
payload_of add_node c = c.add_node
payload_of remove_node c = c.remove_node
payload_of transfer_leader c = c.transfer
payload_of add_jobs c = c.add_jobs
payload_of done_jobs c = c.done_jobs
payload_of drop_jobs c = c.drop_jobs

marshal_at : Msgpack → WireCommand → Option PayloadType → Result CodecError (List ℕ)
marshal_at k c none = err unknown_command
marshal_at k c (some t) = marshal_as k t c.kind c.propose_id (payload_of t c)

unmarshal_at : Msgpack → WireCommand → List ℕ → Option PayloadType → Result CodecError WireCommand
unmarshal_at k c bytes none = err unknown_command
unmarshal_at k c bytes (some t) = unmarshal_as k t c bytes

-- The switch of `MarshalMsgpack` is a choice by the type.
marshal_msgpack_lem :
    (k : Msgpack) (c : WireCommand) → marshal_msgpack k c ≡ marshal_at k c (type_of c.kind)
unfolding marshal_msgpack marshal_at
marshal_msgpack_lem k c = sym (
    ap-chain (marshal_at k c) c.kind (some peers_list) (some add_node) (some remove_node)
      (some transfer_leader) (some add_jobs) (some done_jobs) (some drop_jobs) none)

unmarshal_payload_lem :
    (k : Msgpack) (c : WireCommand) (bytes : List ℕ)
    → unmarshal_payload k c bytes ≡ unmarshal_at k c bytes (type_of c.kind)
unfolding unmarshal_payload unmarshal_at
unmarshal_payload_lem k c bytes = sym (
    ap-chain (unmarshal_at k c bytes) c.kind (some peers_list) (some add_node) (some remove_node)
      (some transfer_leader) (some add_jobs) (some done_jobs) (some drop_jobs) none)

-- A command is of a type whose payload it has.
abbrev pub Carries : (c : WireCommand) (t : PayloadType) → PayloadOf t → Type 0
Carries c t p = (type_of c.kind ≡ some t) × (payload_of t c ≡ some p)

small_kind : (n : ℕ) (t : PayloadType) → type_of n ≡ some t → n < 2 ^ 8
small_kind n t h = ground (arith, h)

marshal_as-cases :
    (k : Msgpack) (t : PayloadType) (kind propose_id : ℕ) (po : Option (PayloadOf t))
    (bytes : List ℕ)
    → marshal_as k t kind propose_id po ≡ ok bytes
    → (p : PayloadOf t) × (raw : List ℕ) × ((po ≡ some p)
        × ((k.encode_payload t p ≡ some raw)
            × (k.encode_array (k.encode_number kind) (k.encode_number propose_id) raw ≡ bytes)))
unfolding marshal_as
marshal_as-cases k t kind propose_id none bytes h = absurd cc
marshal_as-cases k t kind propose_id (some p) bytes h =
    let array =
      λ (d : List ℕ). k.encode_array (k.encode_number kind) (k.encode_number propose_id) d in
    let (raw, (e, w)) =
      (elim (k.encode_payload t p)
          as (λ o.
            elim o [ none ↦ err not_encoded | some d ↦ ok (array d) ] ≡ ok bytes
            → (raw : List ℕ) × ((o ≡ some raw) × (array raw ≡ bytes))) [
              | none ↦ λ h'. absurd cc
              | some d ↦ λ h'. (d, (refl, cc))
            ])
        h in
    (p, raw, (refl, (e, w)))

marshal_msgpack-cases :
    (k : Msgpack) (c : WireCommand) (bytes : List ℕ)
    → marshal_msgpack k c ≡ ok bytes
    → (t : PayloadType) × ((type_of c.kind ≡ some t)
        × (marshal_as k t c.kind c.propose_id (payload_of t c) ≡ ok bytes))
unfolding marshal_at
marshal_msgpack-cases k c bytes h =
    (elim (type_of c.kind)
        as (λ o.
          marshal_at k c o ≡ ok bytes
          → (t : PayloadType) × ((o ≡ some t)
              × (marshal_as k t c.kind c.propose_id (payload_of t c) ≡ ok bytes))) [
                | none ↦ λ h'. absurd cc
                | some t ↦ λ h'. (t, (refl, h'))
              ])
      (sym (marshal_msgpack_lem k c) ∙ h)

unmarshal_at-some :
    (k : Msgpack) (c : WireCommand) (raw : List ℕ) (t : PayloadType) (p : PayloadOf t)
    → type_of c.kind ≡ some t
    → k.decode_payload t raw ≡ some p
    → unmarshal_at k c raw (type_of c.kind) ≡ ok (with_payload t p c)
unfolding unmarshal_at unmarshal_as
unmarshal_at-some k c raw t p h d = ap (unmarshal_at k c raw) h ∙ rw (unmarshal_as, d) refl

-- The array of three, decoded.
unmarshal_msgpack-array :
    (k : Msgpack) (kind propose_id : ℕ) (t : PayloadType) (p : PayloadOf t) (raw : List ℕ)
    → IsMsgpack k
    → propose_id < 2 ^ 64
    → type_of kind ≡ some t
    → k.encode_payload t p ≡ some raw
    → unmarshal_msgpack k zero_command
        (k.encode_array (k.encode_number kind) (k.encode_number propose_id) raw)
      ≡ ok (
          with_payload t
            (as_sent t p)
            (record zero_command { kind = kind; propose_id = propose_id }))
unfolding unmarshal_msgpack
unmarshal_msgpack-array k kind propose_id t p raw law bound h e =
    let c = record zero_command { kind = kind; propose_id = propose_id } in
    rw
      (
        unmarshal_msgpack,
        law.array (k.encode_number kind) (k.encode_number propose_id) raw,
        law.uint8 kind (small_kind kind t h),
        law.uint64 propose_id bound,
      )
      (unmarshal_payload_lem k c raw
        ∙ unmarshal_at-some k c raw t (as_sent t p) h (law.payload t p raw e))

-- Let msgpack decode what it encoded, but the fields of a job that are not sent. A command that
-- MarshalMsgpack encoded has the payload of its type, and UnmarshalMsgpack of the bytes is a command of
-- that type, with the propose ID and that payload as it was sent, and without any other payload.
pub unmarshal_msgpack-marshal_msgpack :
    (k : Msgpack) (c : WireCommand) (bytes : List ℕ)
    → IsMsgpack k
    → c.propose_id < 2 ^ 64
    → marshal_msgpack k c ≡ ok bytes
    → (t : PayloadType) × (p : PayloadOf t) × (Carries c t p
        × (unmarshal_msgpack k zero_command bytes
            ≡ ok (
                with_payload t
                  (as_sent t p)
                  (record zero_command { kind = c.kind; propose_id = c.propose_id }))))
unmarshal_msgpack-marshal_msgpack k c bytes law bound h =
    let (t, (of_type, m)) = marshal_msgpack-cases k c bytes h in
    let (p, raw, (carried, (encoded, whole))) =
      marshal_as-cases k t c.kind c.propose_id (payload_of t c) bytes m in
    (
      t,
      p,
      (
        (of_type, carried),
        ap (unmarshal_msgpack k zero_command) (sym whole)
            ∙ unmarshal_msgpack-array k c.kind c.propose_id t p raw law bound of_type encoded,
      ),
    )
