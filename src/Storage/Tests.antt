-- ===== src/Storage/Tests.antt =====
-- internal/cluster/raft_storage.go: the theorems, applied to small logs.
use cue.Base.{
  false, ◌≡◌, refl, ℕ, ◌-◌, ◌<◌, List, [], ◌∷◌, none, some, arith, ◌&&◌, if◌then◌else◌, leb, ◌==◌,
  ok,
}
use cue.Base.Key.{nat_key, string_key}
use cue.Base.Dict.{lookup, insert}
use cue.Storage.{
  Entry, JobState, pending, finished, StorageCore, append_entry, entries_between, compact,
  find_first_index_to_keep, min_pending, max_complete,
}
use cue.Storage.Append.{append_entry-lookup}
use cue.Storage.Read.{Reads, entries_between-Reads}
use cue.Storage.Compact.{compact-pending}
use cue.Base.Int.{pos}
use cue.Model.{Job, Command, cmd_add_jobs, cmd_done}
use cue.Base.{Option, true}
use cue.Storage.{state_of, append_committed, recover, index_entry, index_command, index_completed}
use cue.Storage.Recovery.{append_committed-recover}
use cue.Storage.Faults.{compact-forgets_readded}

abbrev entry : ℕ → Entry
entry i = record { index = i; term = 1; payload = [] }

-- Three entries. The job of the second is pending.
abbrev core : StorageCore
core = record {
  entries = (1, entry 1) ∷ (2, entry 2) ∷ (3, entry 3) ∷ [];
  hard_term = 1;
  snapshot_meta = record { index = 0; term = 1 };
  first_index = 1;
  last_index = 3;
  write_buffer = [];
  flush_threshold = 4;
  job_index = ("mail", record { add_index = 2; complete_index = 0; complete_type = pending }) ∷ [];
}

-- The job was added at 1, done at 2, and is added again at 3.
abbrev readded : JobState
readded = record { add_index = 3; complete_index = 2; complete_type = pending }

abbrev core_readded : StorageCore
core_readded = record core { job_index = ("mail", readded) ∷ [] }

-- The job was added at 1 and done at 3.
abbrev core_done : StorageCore
core_done = record core {
  job_index = ("mail", record { add_index = 1; complete_index = 3; complete_type = finished }) ∷ [];
}

append_entry-lookup_example : lookup 3 (append_entry core (entry 2)).entries ≡ (
    if 2 == 3 then some (entry 2) else if leb 2 3 && leb 3 3 then none else lookup 3 core.entries)
append_entry-lookup_example = append_entry-lookup core (entry 2) 3

entries_between-Reads_example :
    (es : List Entry) × (entries_between (λ e. 5) core 1 4 10 ≡ ok es)
    × Reads (λ e. 5) core 10 1 (4 - 1) 0 es
unfolding lookup
entries_between-Reads_example =
    entries_between-Reads (λ e. 5) core 1 4 10 (omega arith) (omega arith)
      ((entry 1, refl), ((entry 2, refl), ((entry 3, refl), tt)))

compact-pending_example :
    (lookup 2 (compact core).0.entries ≡ some (entry 2))
    × (lookup "mail" (compact core).0.job_index
        ≡ some (record { add_index = 2; complete_index = 0; complete_type = pending }))
    × ((compact core).0.snapshot_meta.index < 2)
unfolding lookup
compact-pending_example =
    compact-pending core "mail" _ (entry 2) (refl, (refl, (refl, tt))) refl refl refl refl
      (omega arith)

compact-forgets_readded_example : lookup "mail" (compact core_readded).0.job_index ≡ none
unfolding lookup find_first_index_to_keep min_pending max_complete
compact-forgets_readded_example =
    compact-forgets_readded core_readded "mail" readded (refl, tt) refl refl (omega arith)
      (omega arith) (omega arith)

-- A job that was done at 2, and is added again by a command.
abbrev again : Job
again = record { id = "mail"; topic = "t"; bytes = []; is_done = false; created_at = pos 0 }

-- Entries with data add the job, those without are done commands for it.
abbrev adding : Command
adding = record {
  kind = cmd_add_jobs;
  add_jobs = some (record { topic = "t"; jobs = again ∷ [] });
  done_jobs = none;
  drop_jobs = none;
  resp_info = none;
}

abbrev finishing : Command
finishing = record {
  kind = cmd_done;
  add_jobs = none;
  done_jobs = some (record { topic = "t"; job_ids = "mail" ∷ [] });
  drop_jobs = none;
  resp_info = none;
}

abbrev decoded : List ℕ → Option Command
decoded [] = some finishing
decoded (b ∷ bs) = some adding

abbrev readding : Entry
readding = record { index = 3; term = 1; payload = 7 ∷ [] }

append_committed-recover_example :
    (state_of (append_committed decoded (λ e. e.payload) true core readding).0.job_index "mail"
      ≡ record (state_of core.job_index "mail") { add_index = 3; complete_type = pending })
    × (state_of (recover decoded core (entry 2 ∷ readding ∷ [])).job_index "mail"
        ≡ record (state_of (recover decoded core (entry 2 ∷ [])).job_index "mail") {
          add_index = 3;
        })
append_committed-recover_example =
    append_committed-recover decoded (λ e. e.payload) true core (entry 2 ∷ []) readding adding
      (record { topic = "t"; jobs = again ∷ [] }) "mail" refl refl refl

-- After the recovery the pending job counts as done.
finished_again :
    (state_of (recover decoded core (entry 2 ∷ readding ∷ [])).job_index "mail").complete_type
    ≡ finished
unfolding recover index_entry index_command index_completed lookup insert
finished_again = refl
