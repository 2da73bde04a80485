-- ===== src/Bridge/Faults.antt =====
-- internal/cluster/agent_raft_bridge.go: a command that the handler refuses.
use cue.Base.{
  ℕ, ◌≡◌, refl, sym, subst, Bool, true, false, List, [], ◌∷◌, Option, none, some, String,
  if◌then◌else◌, ◌==◌, err, Run, done, arith,
}
use cue.Base.Int.{ℤ}
use cue.Model.{Job, RespInfo, Command, AddJobsPayload, DonePayload, DropPayload, cmd_done}
use cue.Codec.{WireCommand}
use cue.Topics.Handler.{HandlerError}
use cue.Bridge.{
  ClusterAgent, Applied, BridgeError, handler_failed, Handle, is_dead, count_alive, mark_dead,
  command_of, forward_jobs, add_jobs_case, done_case, drop_case, persist_drop, dispatch_command,
  delete_dead, required,
}
use cue.Bridge.DeadJobs.{Applies, adds, finishes, drops, at_add, at_done, at_drop}

-- The handler refuses every command with this error.
abbrev pub Refuses : Handle → HandlerError → Type 0
Refuses handle e = (topic : String) (cmd : Command) → handle topic cmd ≡ done (err e)

-- The result of a command that was not handed on, with what is returned of the error.
abbrev pub Refused : Option BridgeError → Run Applied → Type 0
Refused failure m = (r : Applied) × ((m ≡ done r) × ((r.forwarded ≡ none) × (r.failure ≡ failure)))

Refused-if :
    (f : Option BridgeError) (b : Bool) (x y : Run Applied)
    → Refused f x
    → Refused f y
    → Refused f (if b then x else y)
Refused-if f true x y h k = h
Refused-if f false x y h k = k

forward_jobs-Refused :
    (handle : Handle) (e : HandlerError) (a : ClusterAgent) (cmd : Command) (b : Bool) (x y : Job)
    (jobs : List Job)
    → Refuses handle e
    → Refused none (forward_jobs handle a cmd (if b then x ∷ jobs else y ∷ jobs))
unfolding forward_jobs
forward_jobs-Refused handle e a cmd true x y jobs h = (
  record { agent = a; forwarded = none; failure = none },
  (rw (h x.topic cmd) refl, (refl, refl)),
)
forward_jobs-Refused handle e a cmd false x y jobs h = (
  record { agent = a; forwarded = none; failure = none },
  (rw (h y.topic cmd) refl, (refl, refl)),
)

add_jobs_case-Refused :
    (handle : Handle) (e : HandlerError) (a : ClusterAgent) (cmd : Command)
    (payload : AddJobsPayload) (jobs : List Job)
    → Refuses handle e
    → Refused none (add_jobs_case handle a cmd payload jobs)
unfolding add_jobs_case count_alive mark_dead
add_jobs_case-Refused handle e a cmd payload [] h =
    (record { agent = a; forwarded = none; failure = none }, (refl, (refl, refl)))
add_jobs_case-Refused handle e a cmd payload (job ∷ jobs) h =
    let marked = record cmd {
      add_jobs = some (record payload { jobs = mark_dead a.dead_jobs (job ∷ jobs) });
    } in
    Refused-if none (count_alive a.dead_jobs (job ∷ jobs) == 0)
      (done (record { agent = a; forwarded = none; failure = none }))
      (forward_jobs handle a marked (mark_dead a.dead_jobs (job ∷ jobs)))
      (record { agent = a; forwarded = none; failure = none }, (refl, (refl, refl)))
      (forward_jobs-Refused handle e a marked (is_dead a.dead_jobs job.id)
        (record job { is_done = true }) job (mark_dead a.dead_jobs jobs) h)

done_case-Refused :
    (handle : Handle) (e : HandlerError) (a : ClusterAgent) (cmd : Command) (payload : DonePayload)
    → Refuses handle e
    → Refused (some (handler_failed e)) (done_case handle a cmd payload)
unfolding done_case
done_case-Refused handle e a cmd payload h = (
  record {
    agent = record a { dead_jobs = delete_dead a.dead_jobs payload.job_ids };
    forwarded = none;
    failure = some (handler_failed e);
  },
  (rw (h payload.topic cmd) refl, (refl, refl)),
)

drop_case-Refused :
    (grown : ℕ → ℕ) (now : ℤ) (handle : Handle) (e : HandlerError) (a : ClusterAgent)
    (cmd : Command) (payload : DropPayload)
    → Refuses handle e
    → Refused none (drop_case grown now handle a cmd payload)
unfolding drop_case
drop_case-Refused grown now handle e a cmd payload h = (
  record {
    agent = record a {
      dead_jobs = delete_dead a.dead_jobs payload.job_ids;
      dlq_manager = persist_drop grown now payload a.dlq_manager;
    };
    forwarded = none;
    failure = none;
  },
  (rw (h payload.topic cmd) refl, (refl, refl)),
)

required-Refused {ℓ} :
    {P : Type ℓ} (a : ClusterAgent) (failure : Option BridgeError) (o : Option P) (p : P)
    (f : P → Run Applied)
    → o ≡ some p
    → Refused failure (f p)
    → Refused failure (required a o f)
unfolding required
required-Refused a failure o p f e h = subst (λ x. Refused failure (required a x f)) (sym e) h

failure_at :
    (n : ℕ) (e : HandlerError) (b : Bool)
    → (n == cmd_done) ≡ b
    → (if n == cmd_done then some (handler_failed e) else none)
      ≡ (if b then some (handler_failed e) else none)
failure_at n e b h = rw h refl

-- Let the handler refuse every command with an error. A command on jobs with its payload reaches no
-- partition; the error is returned for a done command only, and for an add or a drop command nothing
-- is reported.
pub dispatch_command-Refused :
    (grown : ℕ → ℕ) (now : ℤ) (handle : Handle) (e : HandlerError) (a : ClusterAgent)
    (c : WireCommand) (resp_info : Option RespInfo) (ids : List String)
    → Refuses handle e
    → Applies c ids
    → Refused
        (if c.kind == cmd_done then some (handler_failed e) else none)
        (dispatch_command grown now handle a (command_of c resp_info))
unfolding dispatch_command command_of
dispatch_command-Refused grown now handle e a c resp_info ids h (adds p k v) =
    let cmd = command_of c resp_info in
    rw (failure_at c.kind e false (ground (arith, k))) (
      subst (Refused none) (sym (at_add c.kind _ _ _ _ k)) (
        required-Refused a none c.add_jobs p (λ p'. add_jobs_case handle a cmd p' p'.jobs) v
          (add_jobs_case-Refused handle e a cmd p p.jobs h)))
dispatch_command-Refused grown now handle e a c resp_info ids h (finishes p k v) =
    let cmd = command_of c resp_info in
    rw (failure_at c.kind e true (ground (arith, k))) (
      subst (Refused (some (handler_failed e))) (sym (at_done c.kind _ _ _ _ k)) (
        required-Refused a (some (handler_failed e)) c.done_jobs p (done_case handle a cmd) v
          (done_case-Refused handle e a cmd p h)))
dispatch_command-Refused grown now handle e a c resp_info ids h (drops p k v) =
    let cmd = command_of c resp_info in
    rw (failure_at c.kind e false (ground (arith, k))) (
      subst (Refused none) (sym (at_drop c.kind _ _ _ _ k)) (
        required-Refused a none c.drop_jobs p (drop_case grown now handle a cmd) v
          (drop_case-Refused grown now handle e a cmd p h)))
