-- ===== src/Partition/Tests.antt =====
-- internal/state/partition.go: the theorems, applied to a partition with one job.
use cue.Base.{
  ◌++◌, List, ◌≡◌, ◌⊎◌, refl, inl, [], ◌∷◌, none, some, true, false, arith, done, panics, ◌>>=◌,
  is_some, map_option,
}
use cue.Base.Int.{pos}
use cue.Base.Key.{string_key}
use cue.Model.{JobFailure, Command, success}
use cue.Queue.{JobRef, new_process_queue}
use cue.Queue.Shape.{new_process_queue-IsValid}
use cue.Store.{JobStore, new_job_store, append_slot, get, get_by_id}
use cue.Store.Invariant.{new_job_store-IsValid}
use cue.Store.Release.{finished}
use cue.Store.Example.{mail, no_mail, one_mail, one_mail-IsValid, named}
use cue.Proxies.{new_proxy_map}
use cue.Dlq.{DeadLetter}
use cue.Partition.State.{PartitionConfig, Partition, Env}
use cue.Partition.Commands.{
  add_jobs_loop, add_job, stamped, handle_done, handle_drop, offer, flush_dlq,
}
use cue.Partition.Admission.{Outcome, add_job-cases}
use cue.Partition.Completion.{Swept, handle_done-Swept, handle_drop-Swept}
use cue.Partition.Dispatch.{Classified, classify, start}
use cue.Partition.Accounting.{Keeps, AllAccounted, add_jobs_loop-AllAccounted}
use cue.Partition.Classification.{Sorted, classify-Sorted}
use cue.Partition.Dangling.{handle_drop-flush_dlq}

abbrev config : PartitionConfig
config = record {
  active_queue_capacity = 4;
  max_retries = pos 3;
  max_backoff_sec = pos 9;
  dispatch_batch_size = pos 2;
  dlq_max_bytes = pos 100;
  dlq_max_age_ms = pos 100;
}

abbrev env : Env
env = record {
  now_sec = pos 1;
  now_milli = pos 1000;
  status = 71;
  free = λ ch. 4;
  accepts = λ ch. true;
}

abbrev letter : DeadLetter
letter = record {
  ref = record { index = pos 0; retry_count = pos 3; cell = pos 0; due_time_sec = pos 9 };
  size = pos 1;
}

abbrev with_store : JobStore → Partition
with_store js = record {
  topic = "t";
  config = config;
  job_store = js;
  process_queue = new_process_queue 4;
  proxy_map = new_proxy_map;
  dlq_buffer = record {
    jobs = letter ∷ [];
    bytes = pos 1;
    last_flush = pos 0;
    max_bytes = pos 8;
    max_age_ms = pos 8;
  };
  proxy_push_chs = [];
}

abbrev blank : Command
blank = record { kind = 0; add_jobs = none; done_jobs = none; drop_jobs = none; resp_info = none }

abbrev finishing : Command
finishing = record blank {
  kind = 5;
  done_jobs = some record { topic = "t"; job_ids = "mail" ∷ [] };
}

abbrev dropping : Command
dropping = record blank { kind = 6; drop_jobs = some record { topic = "t"; job_ids = "mail" ∷ [] } }

add_job-cases_example :
    ((add_job env (with_store no_mail) mail ≡ done (with_store no_mail, []))
      × ((mail.is_done ≡ true) ⊎ (is_some (get_by_id no_mail mail.id) ≡ true)))
    ⊎ ((mail.is_done ≡ false)
        × (get_by_id no_mail mail.id ≡ none)
        × Outcome env
            (with_store no_mail)
            (stamped env mail)
            mail.id
            (add_job env (with_store no_mail) mail))
unfolding new_job_store
add_job-cases_example =
    add_job-cases env (with_store no_mail) mail
      (record { store = new_job_store-IsValid 4; queue = new_process_queue-IsValid 4 }) named
      (omega arith)

handle_done-Swept_example :
    (js' : JobStore) × (handle_done (with_store one_mail) finishing
      ≡ done (record (with_store one_mail) { job_store = js' }, offer finishing success "" []))
    × Swept one_mail ("mail" ∷ []) (map_option finished) js'
handle_done-Swept_example =
    handle_done-Swept (with_store one_mail) finishing
      (record { topic = "t"; job_ids = "mail" ∷ [] }) one_mail-IsValid refl

handle_drop-Swept_example :
    (js' : JobStore) × (handle_drop (with_store one_mail) dropping
      ≡ done (record (with_store one_mail) { job_store = js' }, offer dropping success "" []))
    × Swept one_mail ("mail" ∷ []) (λ o. none) js'
handle_drop-Swept_example =
    handle_drop-Swept (with_store one_mail) dropping (record { topic = "t"; job_ids = "mail" ∷ [] })
      one_mail-IsValid refl

handle_drop-flush_dlq_example :
    (handle_drop (with_store one_mail) dropping >>= λ (p', response). flush_dlq env p') ≡ panics
unfolding append_slot new_job_store get
handle_drop-flush_dlq_example =
    handle_drop-flush_dlq env (with_store one_mail) dropping
      (record { topic = "t"; job_ids = "mail" ∷ [] }) 0 mail one_mail-IsValid refl refl refl
      (inl refl)

-- Two references to the job of the store, the second without retries left.
abbrev batch : List JobRef
batch =
    record { index = pos 0; retry_count = pos 0; cell = pos 0; due_time_sec = pos 1 }
    ∷ record { index = pos 0; retry_count = pos 3; cell = pos 1; due_time_sec = pos 1 }
    ∷ []

classify-Sorted_example :
    (c' : Classified) × (classify env config batch (start (with_store one_mail)) ≡ done c')
    × Sorted config batch (start (with_store one_mail)) c'
classify-Sorted_example = classify-Sorted env config batch (start (with_store one_mail))

add_jobs_loop-AllAccounted_example :
    (p' : Partition) × (more : List JobFailure) × (add_jobs_loop env
        (with_store no_mail)
        (mail ∷ [])
        []
      ≡ done (p', [] ++ more))
    × Keeps (with_store no_mail) p' 1
    × AllAccounted p' more (mail ∷ [])
unfolding new_job_store
add_jobs_loop-AllAccounted_example =
    add_jobs_loop-AllAccounted env (with_store no_mail) (mail ∷ []) []
      (record { store = new_job_store-IsValid 4; queue = new_process_queue-IsValid 4 }) (named, tt)
      (omega arith)
