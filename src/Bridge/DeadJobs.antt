-- ===== src/Bridge/DeadJobs.antt =====
-- internal/cluster/agent_raft_bridge.go: which jobs count as dead while the log is applied.
use cue.Base.{
  ℕ, ◌≡◌, ◌⊎◌, inl, inr, refl, sym, ap, subst, ◌∙◌, Bool, true, false, ◌||◌, List, [], ◌∷◌, ◌++◌,
  Option, none, some, String, if◌then◌else◌, ◌==◌, ok, Run, done, arith,
}
use cue.Base.Int.{ℤ}
use cue.Base.Key.{nat_key, string_key, ◌=?◌}
use cue.Base.Dict.{Dict, lookup, erase, lookup-erase}
use cue.Model.{
  Job, RespInfo, Command, Channel, AddJobsPayload, DonePayload, DropPayload, cmd_add_jobs, cmd_done,
  cmd_drop,
}
use cue.Codec.{WireCommand, zero_command, Msgpack, unmarshal_msgpack}
use cue.Bridge.{
  ClusterAgent, CommittedEntry, entry_normal, entry_conf_change, entry_conf_change_v2, entry_other,
  Applied, Handle, is_dead, count_alive, mark_dead, delete_dead, command_of, forward_jobs,
  add_jobs_case, done_case, drop_case, persist_drop, required, dispatch_command, run_command,
  process_as, checked, handle_normal_command, handle_config_change, process_committed_entry,
  process_entries,
}

-- The handler takes every command on.
abbrev pub Answers : Handle → Type 0
Answers handle =
    (topic : String) (cmd : Command) → (ch : Option Channel) × (handle topic cmd ≡ done (ok ch))

-- The result of a step: it returns without an error, and has taken these IDs off the dead jobs.
abbrev pub Buries : ClusterAgent → List String → Run Applied → Type 0
Buries a ids m =
    (r : Applied) × ((m ≡ done r)
      × ((r.failure ≡ none) × (r.agent.dead_jobs ≡ delete_dead a.dead_jobs ids)))

forward_jobs-Buries :
    (handle : Handle) (a : ClusterAgent) (cmd : Command) (job : Job) (jobs : List Job)
    → Answers handle
    → Buries a [] (forward_jobs handle a cmd (job ∷ jobs))
unfolding forward_jobs delete_dead
forward_jobs-Buries handle a cmd job jobs h =
    let (ch, e) = h job.topic cmd in
    (
      record { agent = a; forwarded = some (job.topic, cmd); failure = none },
      (rw e refl, (refl, refl)),
    )

Buries-if :
    (a : ClusterAgent) (ids : List String) (b : Bool) (x y : Run Applied)
    → Buries a ids x
    → Buries a ids y
    → Buries a ids (if b then x else y)
Buries-if a ids true x y h k = h
Buries-if a ids false x y h k = k

-- Whether or not the first job is dead, there is a first job.
forward_marked-Buries :
    (handle : Handle) (a : ClusterAgent) (cmd : Command) (b : Bool) (x y : Job) (jobs : List Job)
    → Answers handle
    → Buries a [] (forward_jobs handle a cmd (if b then x ∷ jobs else y ∷ jobs))
forward_marked-Buries handle a cmd true x y jobs h = forward_jobs-Buries handle a cmd x jobs h
forward_marked-Buries handle a cmd false x y jobs h = forward_jobs-Buries handle a cmd y jobs h

-- What `handleNormalCommand` does with added jobs, once it knows them.
jobs_case : Handle → ClusterAgent → Command → AddJobsPayload → List Job → Run Applied
jobs_case handle a cmd payload jobs =
    if count_alive a.dead_jobs jobs == 0
    then done (record { agent = a; forwarded = none; failure = none })
    else forward_jobs handle a
        (record cmd { add_jobs = some (record payload { jobs = mark_dead a.dead_jobs jobs }) })
        (mark_dead a.dead_jobs jobs)

add_jobs_case-Buries :
    (handle : Handle) (a : ClusterAgent) (cmd : Command) (payload : AddJobsPayload)
    (jobs : List Job)
    → Answers handle
    → Buries a [] (add_jobs_case handle a cmd payload jobs)
unfolding add_jobs_case count_alive mark_dead delete_dead
add_jobs_case-Buries handle a cmd payload [] h =
    (record { agent = a; forwarded = none; failure = none }, (refl, (refl, refl)))
add_jobs_case-Buries handle a cmd payload (job ∷ jobs) h =
    let marked = record cmd {
      add_jobs = some (record payload { jobs = mark_dead a.dead_jobs (job ∷ jobs) });
    } in
    Buries-if a [] (count_alive a.dead_jobs (job ∷ jobs) == 0)
      (done (record { agent = a; forwarded = none; failure = none }))
      (forward_jobs handle a marked (mark_dead a.dead_jobs (job ∷ jobs)))
      (record { agent = a; forwarded = none; failure = none }, (refl, (refl, refl)))
      (forward_marked-Buries handle a marked (is_dead a.dead_jobs job.id)
        (record job { is_done = true }) job (mark_dead a.dead_jobs jobs) h)

done_case-Buries :
    (handle : Handle) (a : ClusterAgent) (cmd : Command) (payload : DonePayload)
    → Answers handle
    → Buries a payload.job_ids (done_case handle a cmd payload)
unfolding done_case
done_case-Buries handle a cmd payload h =
    let (ch, k) = h payload.topic cmd in
    let a' = record a { dead_jobs = delete_dead a.dead_jobs payload.job_ids } in
    (
      record { agent = a'; forwarded = some (payload.topic, cmd); failure = none },
      (rw k refl, (refl, refl)),
    )

drop_case-Buries :
    (grown : ℕ → ℕ) (now : ℤ) (handle : Handle) (a : ClusterAgent) (cmd : Command)
    (payload : DropPayload)
    → Answers handle
    → Buries a payload.job_ids (drop_case grown now handle a cmd payload)
unfolding drop_case
drop_case-Buries grown now handle a cmd payload h =
    let (ch, k) = h payload.topic cmd in
    let a' = record a {
      dead_jobs = delete_dead a.dead_jobs payload.job_ids;
      dlq_manager = persist_drop grown now payload a.dlq_manager;
    } in
    (
      record { agent = a'; forwarded = some (payload.topic, cmd); failure = none },
      (rw k refl, (refl, refl)),
    )

-- A command that the switch of `handleNormalCommand` takes, with the IDs that it completes.
pub data Applies : WireCommand → List String → Type 0 where
  adds :
      {c : WireCommand} (p : AddJobsPayload)
      → c.kind ≡ cmd_add_jobs
      → c.add_jobs ≡ some p
      → Applies c []
  finishes :
      {c : WireCommand} (p : DonePayload)
      → c.kind ≡ cmd_done
      → c.done_jobs ≡ some p
      → Applies c p.job_ids
  drops :
      {c : WireCommand} (p : DropPayload)
      → c.kind ≡ cmd_drop
      → c.drop_jobs ≡ some p
      → Applies c p.job_ids

required-Buries {ℓ} :
    {P : Type ℓ} (a : ClusterAgent) (ids : List String) (o : Option P) (p : P) (f : P → Run Applied)
    → o ≡ some p
    → Buries a ids (f p)
    → Buries a ids (required a o f)
unfolding required
required-Buries a ids o p f e h = subst (λ x. Buries a ids (required a x f)) (sym e) h

pub at_add {ℓ} :
    {A : Type ℓ} (n : ℕ) (x y z w : A)
    → n ≡ 4
    → (if n == 4 then x else if n == 5 then y else if n == 6 then z else w) ≡ x
at_add n x y z w h = rw h refl

pub at_done {ℓ} :
    {A : Type ℓ} (n : ℕ) (x y z w : A)
    → n ≡ 5
    → (if n == 4 then x else if n == 5 then y else if n == 6 then z else w) ≡ y
at_done n x y z w h = rw h refl

pub at_drop {ℓ} :
    {A : Type ℓ} (n : ℕ) (x y z w : A)
    → n ≡ 6
    → (if n == 4 then x else if n == 5 then y else if n == 6 then z else w) ≡ z
at_drop n x y z w h = rw h refl

dispatch_command-Buries :
    (grown : ℕ → ℕ) (now : ℤ) (handle : Handle) (a : ClusterAgent) (c : WireCommand)
    (resp_info : Option RespInfo) (ids : List String)
    → Answers handle
    → Applies c ids
    → Buries a ids (dispatch_command grown now handle a (command_of c resp_info))
unfolding dispatch_command command_of
dispatch_command-Buries grown now handle a c resp_info ids h (adds p k e) =
    let cmd = command_of c resp_info in
    subst (Buries a []) (sym (at_add c.kind _ _ _ _ k)) (
      required-Buries a [] c.add_jobs p (λ p'. add_jobs_case handle a cmd p' p'.jobs) e
        (add_jobs_case-Buries handle a cmd p p.jobs h))
dispatch_command-Buries grown now handle a c resp_info ids h (finishes p k e) =
    let cmd = command_of c resp_info in
    subst (Buries a p.job_ids) (sym (at_done c.kind _ _ _ _ k)) (
      required-Buries a p.job_ids c.done_jobs p (done_case handle a cmd) e
        (done_case-Buries handle a cmd p h))
dispatch_command-Buries grown now handle a c resp_info ids h (drops p k e) =
    let cmd = command_of c resp_info in
    subst (Buries a p.job_ids) (sym (at_drop c.kind _ _ _ _ k)) (
      required-Buries a p.job_ids c.drop_jobs p (drop_case grown now handle a cmd) e
        (drop_case-Buries grown now handle a cmd p h))

-- An entry that the agent applies without an error, with the IDs that it completes.
pub data Valid (k : Msgpack) (decodes : List ℕ → Bool) : CommittedEntry → List String → Type 0 where
  no_data :
      {e : CommittedEntry} → e.entry_type ≡ entry_normal → e.payload ≡ none → Valid k decodes e []
  command :
      {e : CommittedEntry} {ids : List String} (bytes : List ℕ) (c : WireCommand)
      → e.entry_type ≡ entry_normal
      → e.payload ≡ some bytes
      → unmarshal_msgpack k zero_command bytes ≡ ok c
      → Applies c ids
      → Valid k decodes e ids
  membership :
      {e : CommittedEntry} (bytes : List ℕ)
      → (e.entry_type ≡ entry_conf_change) ⊎ (e.entry_type ≡ entry_conf_change_v2)
      → e.payload ≡ some bytes
      → decodes bytes ≡ true
      → Valid k decodes e []
  unknown : {e : CommittedEntry} → e.entry_type ≡ entry_other → Valid k decodes e []

run_command-Buries :
    (k : Msgpack) (grown : ℕ → ℕ) (now : ℤ) (handle : Handle) (a : ClusterAgent) (bytes : List ℕ)
    (c : WireCommand) (ids : List String)
    → Answers handle
    → unmarshal_msgpack k zero_command bytes ≡ ok c
    → Applies c ids
    → Buries a ids (run_command k grown now handle a (some bytes))
unfolding run_command
run_command-Buries k grown now handle a bytes c ids h e v =
    let a' = record a { pending_proposals = erase c.propose_id a.pending_proposals } in
    rw (run_command, e)
      (dispatch_command-Buries grown now handle a' c (lookup c.propose_id a.pending_proposals) ids h
        v)

config_change-Buries :
    (node_id_of : ℕ → Option String) (decodes : List ℕ → Bool) (a : ClusterAgent)
    (e : CommittedEntry) (bytes : List ℕ)
    → e.payload ≡ some bytes
    → decodes bytes ≡ true
    → Buries a [] (done (handle_config_change node_id_of decodes a e))
unfolding handle_config_change delete_dead
config_change-Buries node_id_of decodes a e bytes p d =
    (handle_config_change node_id_of decodes a e, (refl, (simp (p, d), refl)))

process_committed_entry-Buries :
    (k : Msgpack) (node_id_of : ℕ → Option String) (decodes : List ℕ → Bool) (grown : ℕ → ℕ)
    (now : ℤ) (handle : Handle) (a : ClusterAgent) (e : CommittedEntry) (ids : List String)
    → Answers handle
    → Valid k decodes e ids
    → Buries a ids (process_committed_entry k node_id_of decodes grown now handle a e)
unfolding process_committed_entry process_as handle_normal_command run_command delete_dead
process_committed_entry-Buries k node_id_of decodes grown now handle a e ids h (no_data t p) =
    let a' = record a { current_term = e.term } in
    let a'' = record a' { last_applied_index = e.index } in
    subst (λ x. Buries a [] (process_as k node_id_of decodes grown now handle a' e x)) (sym t)
      (subst (λ x. Buries a [] (run_command k grown now handle a'' x)) (sym p)
        (record { agent = a''; forwarded = none; failure = none }, (refl, (refl, refl))))
process_committed_entry-Buries k node_id_of decodes grown now handle a e ids h
      (command bytes c t p d v) =
    let a' = record a { current_term = e.term } in
    let a'' = record a' { last_applied_index = e.index } in
    subst (λ x. Buries a ids (process_as k node_id_of decodes grown now handle a' e x)) (sym t)
      (subst (λ x. Buries a ids (run_command k grown now handle a'' x)) (sym p)
        (run_command-Buries k grown now handle a'' bytes c ids h d v))
process_committed_entry-Buries k node_id_of decodes grown now handle a e ids h
      (membership bytes t p d) =
    let a' = record a { current_term = e.term } in
    let changed = config_change-Buries node_id_of decodes a' e bytes p d in
    elim t [
      | inl single ↦
          subst (λ x. Buries a [] (process_as k node_id_of decodes grown now handle a' e x))
            (sym single) changed
      | inr joint ↦
          subst (λ x. Buries a [] (process_as k node_id_of decodes grown now handle a' e x))
            (sym joint) changed
    ]
process_committed_entry-Buries k node_id_of decodes grown now handle a e ids h (unknown t) =
    let a' = record a { current_term = e.term } in
    subst (λ x. Buries a [] (process_as k node_id_of decodes grown now handle a' e x)) (sym t)
      (record { agent = a'; forwarded = none; failure = none }, (refl, (refl, refl)))

delete_dead-append :
    (dead : Dict String Bool) (xs ys : List String)
    → delete_dead (delete_dead dead xs) ys ≡ delete_dead dead (xs ++ ys)
unfolding delete_dead
delete_dead-append dead [] ys = refl
delete_dead-append dead (x ∷ xs) ys = delete_dead-append (erase x dead) xs ys

abbrev pub named : String → List String → Bool
named id [] = false
named id (x ∷ xs) = (x =? id) || named id xs

is_dead-erase :
    (id x : String) (dead : Dict String Bool)
    → is_dead (erase x dead) id ≡ (if x =? id then false else is_dead dead id)
unfolding is_dead
is_dead-erase id x dead = ground (arith, lookup-erase x id dead)

is_dead-delete_dead :
    (id : String) (dead : Dict String Bool) (ids : List String)
    → is_dead (delete_dead dead ids) id ≡ (if named id ids then false else is_dead dead id)
unfolding delete_dead
is_dead-delete_dead id dead [] = refl
is_dead-delete_dead id dead (x ∷ xs) =
    is_dead-delete_dead id (erase x dead) xs ∙ ground (arith, is_dead-erase id x dead)

-- Entries that the agent applies, with the IDs that they complete.
pub data ValidLog (k : Msgpack) (decodes : List ℕ → Bool)
    : List CommittedEntry → List String → Type 0 where
  no_entry : ValidLog k decodes [] []
  entry_then :
      {e : CommittedEntry} {es : List CommittedEntry} {xs ys : List String}
      → Valid k decodes e xs
      → ValidLog k decodes es ys
      → ValidLog k decodes (e ∷ es) (xs ++ ys)

process_entries-Buries :
    (k : Msgpack) (node_id_of : ℕ → Option String) (decodes : List ℕ → Bool) (grown : ℕ → ℕ)
    (now : ℤ) (handle : Handle) (a : ClusterAgent) (es : List CommittedEntry) (ids : List String)
    → Answers handle
    → ValidLog k decodes es ids
    → (a' : ClusterAgent) × ((process_entries k node_id_of decodes grown now handle a es ≡ done a')
        × (a'.dead_jobs ≡ delete_dead a.dead_jobs ids))
unfolding process_entries delete_dead checked
process_entries-Buries k node_id_of decodes grown now handle a es ids h no_entry = (a, (refl, refl))
process_entries-Buries k node_id_of decodes grown now handle a log ids h
      (entry_then {e} {es} {xs} {ys} v vs) =
    let (r, (ran, (fine, dead))) =
      process_committed_entry-Buries k node_id_of decodes grown now handle a e xs h v in
    let (a', (rest, dead')) =
      process_entries-Buries k node_id_of decodes grown now handle r.agent es ys h vs in
    (
      a',
      (
        rw (process_entries, ran) (rw (checked, fine) rest),
        dead' ∙ (ap (λ d. delete_dead d ys) dead ∙ delete_dead-append a.dead_jobs xs ys),
      ),
    )

-- Let the handler take every command on, and let the entries be commands on jobs with their payload,
-- entries without data, or membership changes that decode. The agent applies them all without an error
-- or a panic. After them a job counts as dead just if it did before and none of the done and drop
-- commands among them names it.
pub process_entries-is_dead :
    (k : Msgpack) (node_id_of : ℕ → Option String) (decodes : List ℕ → Bool) (grown : ℕ → ℕ)
    (now : ℤ) (handle : Handle) (a : ClusterAgent) (es : List CommittedEntry) (ids : List String)
    (id : String)
    → Answers handle
    → ValidLog k decodes es ids
    → (a' : ClusterAgent) × ((process_entries k node_id_of decodes grown now handle a es ≡ done a')
        × (is_dead a'.dead_jobs id ≡ (if named id ids then false else is_dead a.dead_jobs id)))
process_entries-is_dead k node_id_of decodes grown now handle a es ids id h v =
    let (a', (ran, dead)) =
      process_entries-Buries k node_id_of decodes grown now handle a es ids h v in
    (a', (ran, ap (λ d. is_dead d id) dead ∙ is_dead-delete_dead id a.dead_jobs ids))
