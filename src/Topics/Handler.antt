-- ===== src/Topics/Handler.antt =====
-- internal/state/handler.go: the delivery of a committed command to the partition of its topic, which
-- is spawned when it is missing. The handler runs beside the manager: a `Wait` is what one of its
-- waits ends with, together with the router as it is at that time. The logger and the sleeps between
-- the retries are left out.
use cue.Base.{
  ℕ, zero, suc, ◌+◌, ◌≡◌, refl, sym, ap, ◌∙◌, Bool, true, false, not, Option, none, some, String,
  [], Result, ok, err, Run, done, panics, if◌then◌else◌, is_some, arith,
}
use cue.Base.Key.{string_key, ◌=?◌, =?_refl}
use cue.Base.Dict.{lookup, lookup-insert}
use cue.Model.{Channel, Command, ToProducerResponse, RespStatus, success, failure}
use cue.Partition.State.{Env}
use cue.Topics.{
  Router, get_channel, register, spawned, answering, TopicManager, TopicCommand, spawn,
  handle_spawn,
}
use cue.Topics.Registry.{IsValid}
use cue.Topics.Running.{registered}

-- `TopicExist`
unfoldable pub topic_exist : Router → String → Bool
topic_exist r topic = is_some (get_channel r topic)

pub data Wait : Type 0 where
  responded : ToProducerResponse → Router → Wait
  timed_out : Router → Wait
  context_done : Wait

pub data HandlerError : Type 0 where
  spawn_failed : String → HandlerError
  cancelled_context channel_unavailable : HandlerError

-- `resp.Status == "error" && resp.Error != internal.ErrTopicExists.Error()`
abbrev pub refused_by : RespStatus → String → Bool
refused_by success error = false
refused_by failure error = not (error =? "topic already exists")

unfoldable pub is_refused : ToProducerResponse → Bool
is_refused resp = refused_by resp.status resp.error

-- The loop of `ensureChannel`, with the retries that are left.
unfoldable pub await_channel :
    String → (ℕ → Wait) → (retry : ℕ) → (left : ℕ) → Result HandlerError Channel
unfolding is_refused
await_channel topic waits retry zero = err channel_unavailable
await_channel topic waits retry (suc left) = elim (waits retry) [
  | context_done ↦ err cancelled_context
  | responded resp r ↦ elim (is_refused resp) [
    | true ↦ err (spawn_failed resp.error)
    | false ↦ elim (get_channel r topic) [
      | some ch ↦ ok ch
      | none ↦ await_channel topic waits (suc retry) left
    ]
  ]
  | timed_out r ↦ elim (get_channel r topic) [
    | some ch ↦ ok ch
    | none ↦ await_channel topic waits (suc retry) left
  ]
]

-- `ensureChannel`: `sent` says that the spawn command went out before the context was done
unfoldable pub ensure_channel :
    Router → String → (sent : Bool) → (ℕ → Wait) → Result HandlerError Channel
unfolding await_channel
ensure_channel r topic sent waits = elim (get_channel r topic) [
  | some ch ↦ ok ch
  | none ↦ if sent then await_channel topic waits 0 3 else err cancelled_context
]

-- `ProcessCommand`: the channel that takes the command, if there is one; a channel that stays full for
-- ten seconds panics
unfoldable pub process_command :
    Router
    → String
    → Option Command
    → (sent : Bool) → (ℕ → Wait)
    → (takes : Channel → Bool) → Run (Result HandlerError (Option Channel))
unfolding ensure_channel
process_command r topic none sent waits takes = done (ok none)
process_command r topic (some cmd) sent waits takes = elim (ensure_channel r topic sent waits) [
  | err e ↦ done (err e)
  | ok ch ↦ if takes ch then done (ok (some ch)) else panics
]

-- The command that `ensureChannel` sends to the manager.
abbrev pub spawning : String → ℕ → Channel → TopicCommand
spawning topic request_id resp_ch = record {
  kind = spawn;
  topic = topic;
  request_id = request_id;
  resp_ch = some resp_ch;
  topology = none;
}

missing_topic :
    (tm : TopicManager) (topic : String)
    → IsValid tm
    → registered tm topic ≡ false
    → (lookup topic tm.stop_chs ≡ none) × (get_channel tm.cmd_router topic ≡ none)
unfolding get_channel
missing_topic tm topic v missing =
    (ground (arith, v.commands_agree topic, missing), ground (arith, missing))

-- A spawn of a missing topic registers a channel, and its answer, if any, is a success.
handle_spawn-missing :
    (env : Env) (tm : TopicManager) (topic : String) (request_id : ℕ) (resp_ch : Channel)
    → lookup topic tm.stop_chs ≡ none
    → ((handle_spawn env tm (spawning topic request_id resp_ch)).0.cmd_router
        ≡ register tm.cmd_router topic (tm.next_ch + 2))
      × ((handle_spawn env tm (spawning topic request_id resp_ch)).1.answer
          ≡ answering env (spawning topic request_id resp_ch) success "")
unfolding handle_spawn spawned
handle_spawn-missing env tm topic request_id resp_ch missing =
    (rw (missing, handle_spawn) refl, rw (missing, handle_spawn) refl)

answering-success :
    (env : Env) (topic : String) (request_id : ℕ) (resp_ch : Channel) (resp : ToProducerResponse)
    → answering env (spawning topic request_id resp_ch) success "" ≡ some resp
    → resp.status ≡ success
answering-success env topic request_id resp_ch resp e = sent (env.accepts resp_ch) e
  where
    sent :
        (b : Bool)
        → (if b
            then some
                record { request_id = request_id; status = success; error = ""; failures = [] }
            else none)
          ≡ some resp
        → resp.status ≡ success
    sent true e = sym (ap (λ o. elim o [ none ↦ success | some r ↦ r.status ]) e)
    sent false e = absurd (ground (arith, e))

success-accepted : (resp : ToProducerResponse) → resp.status ≡ success → is_refused resp ≡ false
unfolding is_refused
success-accepted resp e = ap (λ s. refused_by s resp.error) e

await_channel-responded :
    (topic : String) (waits : ℕ → Wait) (retry left : ℕ) (resp : ToProducerResponse) (r : Router)
    → (ch : Channel) → waits retry ≡ responded resp r
    → is_refused resp ≡ false
    → get_channel r topic ≡ some ch
    → await_channel topic waits retry (suc left) ≡ ok ch
unfolding await_channel
await_channel-responded topic waits retry left resp r ch w accepted found =
    rw (w, await_channel) (rw (accepted, found) refl)

register-get_channel :
    (r : Router) (topic : String) (ch : Channel) → get_channel (register r topic ch) topic ≡ some ch
unfolding get_channel register
register-get_channel r topic ch = lookup-insert topic topic ch r.chs ∙ simp (=?_refl topic) refl

-- When a topic is missing at a manager whose tables agree, and the handler's first wait ends with the
-- manager's answer to its spawn, the handler delivers the command to the channel that the manager then
-- has for the topic, if that channel takes it in time.
pub process_command-spawns :
    (env : Env) (tm : TopicManager) (topic : String) (request_id : ℕ) (resp_ch : Channel)
    → (cmd : Command) (waits : ℕ → Wait) (takes : Channel → Bool) (resp : ToProducerResponse)
    → IsValid tm
    → registered tm topic ≡ false
    → (handle_spawn env tm (spawning topic request_id resp_ch)).1.answer ≡ some resp
    → waits 0
      ≡ responded resp (handle_spawn env tm (spawning topic request_id resp_ch)).0.cmd_router
    → ((ch : Channel) → takes ch ≡ true)
    → (ch : Channel) × (process_command tm.cmd_router topic (some cmd) true waits takes
        ≡ done (ok (some ch)))
      × (get_channel (handle_spawn env tm (spawning topic request_id resp_ch)).0.cmd_router topic
          ≡ some ch)
unfolding process_command ensure_channel
process_command-spawns env tm topic request_id resp_ch cmd waits takes resp v missing ans w h =
    let (no_stop, no_channel) = missing_topic tm topic v missing in
    let (router, answer) = handle_spawn-missing env tm topic request_id resp_ch no_stop in
    let accepted =
      success-accepted resp
        (answering-success env topic request_id resp_ch resp (sym answer ∙ ans)) in
    let found = register-get_channel tm.cmd_router topic (tm.next_ch + 2) in
    let w' = w ∙ ap (responded resp) router in
    (
      tm.next_ch + 2,
      rw (no_channel, process_command)
          (rw
            (await_channel-responded topic waits 0 2 resp
              (register tm.cmd_router topic (tm.next_ch + 2)) (tm.next_ch + 2) w' accepted found)
            (simp (h (tm.next_ch + 2)) refl)),
      rw router found,
    )
