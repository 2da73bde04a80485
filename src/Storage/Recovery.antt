-- ===== src/Storage/Recovery.antt =====
-- internal/cluster/raft_storage.go: what the index of the jobs records of added jobs, when their entry
-- is committed and when it is recovered.
use cue.Base.{
  ℕ, ◌≡◌, refl, ap, ◌∙◌, inl, inr, Bool, true, false, ◌||◌, List, [], ◌∷◌, ◌++◌, length, leb, ◌==◌,
  sym, Option, none, some, String, if◌then◌else◌, Bool-cases,
}
use cue.Base.Key.{nat_key, string_key, ◌=?◌}
use cue.Base.Dict.{Dict, lookup, insert, lookup-insert}
use cue.Model.{Job, Command, AddJobsPayload, cmd_add_jobs}
use cue.Storage.{
  Entry, StorageCore, JobState, zero_state, pending, state_of, index_added, index_entry,
  index_command, update_indices, recover_loop, recover, flush_buffer, append_committed,
}

abbrev pub adds_job : String → List Job → Bool
adds_job id [] = false
adds_job id (job ∷ jobs) = (job.id =? id) || adds_job id jobs

-- The record of an added job.
abbrev added_at : Bool → ℕ → JobState → JobState
added_at reset index s = record s {
  add_index = index;
  complete_type = if reset then pending else s.complete_type;
}

state_of-insert :
    (m : Dict String JobState) (k id : String) (s : JobState)
    → state_of (insert k s m) id ≡ (if k =? id then s else state_of m id)
state_of-insert m k id s =
    ap (λ o. elim o as (λ _. JobState) [ none ↦ zero_state | some x ↦ x ]) (lookup-insert k id s m)
    ∙ split (k =? id) (lookup id m)
  where
    split :
        (b : Bool) (o : Option JobState)
        → (elim (if b then some s else o) as (λ _. JobState) [ none ↦ zero_state | some x ↦ x ])
          ≡ (if b then s else elim o as (λ _. JobState) [ none ↦ zero_state | some x ↦ x ])
    split true o = refl
    split false o = refl

added_at-twice :
    (reset : Bool) (index : ℕ) (s : JobState)
    → added_at reset index (added_at reset index s) ≡ added_at reset index s
added_at-twice true index s = refl
added_at-twice false index s = refl

-- One more job in front of the list.
added_before :
    (reset : Bool) (index : ℕ) (b named : Bool) (x1 x : JobState)
    → x1 ≡ (if b then added_at reset index x else x)
    → (if named then added_at reset index x1 else x1)
      ≡ (if b || named then added_at reset index x else x)
added_before reset index true true x1 x e =
    ap (added_at reset index) e ∙ added_at-twice reset index x
added_before reset index true false x1 x e = e
added_before reset index false true x1 x e = ap (added_at reset index) e
added_before reset index false false x1 x e = e

index_added-state_of :
    (reset : Bool) (index : ℕ) (m : Dict String JobState) (jobs : List Job) (id : String)
    → state_of (index_added reset index m jobs) id
      ≡ (if adds_job id jobs then added_at reset index (state_of m id) else state_of m id)
unfolding index_added
index_added-state_of reset index m [] id = refl
index_added-state_of reset index m (job ∷ jobs) id =
    let s = added_at reset index (state_of m job.id) in
    index_added-state_of reset index (insert job.id s m) jobs id
    ∙ added_before reset index (job.id =? id) (adds_job id jobs) _ (state_of m id) (
        state_of-insert m job.id id s ∙ elim (Bool-cases (job.id =? id)) [
          | inl e ↦
              rw e
                (ap (λ i. added_at reset index (state_of m i)) ((string_key.beq_iff job.id id).0 e))
          | inr e ↦ rw e refl
        ])

-- An entry that adds jobs.
index_entry-added :
    (decode : List ℕ → Option Command) (reset : Bool) (m : Dict String JobState) (entry : Entry)
    (cmd : Command) (payload : AddJobsPayload) (id : String)
    → decode entry.payload ≡ some cmd
    → cmd.kind ≡ cmd_add_jobs
    → cmd.add_jobs ≡ some payload
    → state_of (index_entry decode reset m entry) id ≡ (
        if adds_job id payload.jobs
        then added_at reset entry.index (state_of m id)
        else state_of m id)
unfolding index_entry index_command
index_entry-added decode reset m entry cmd payload id d k a =
    rw (d, index_entry, k, index_command, a)
      (index_added-state_of reset entry.index m payload.jobs id)

flush_buffer-job_index :
    (wal_takes : Bool) (c : StorageCore) → (flush_buffer wal_takes c).0.job_index ≡ c.job_index
unfolding flush_buffer
flush_buffer-job_index true c = elim (Bool-cases (length c.write_buffer == 0)) [
  | inl e ↦ rw (e, flush_buffer) refl
  | inr e ↦ rw (e, flush_buffer) refl
]
flush_buffer-job_index false c = elim (Bool-cases (length c.write_buffer == 0)) [
  | inl e ↦ rw (e, flush_buffer) refl
  | inr e ↦ rw (e, flush_buffer) refl
]

append_committed-job_index :
    (decode : List ℕ → Option Command) (encode : Entry → List ℕ) (wal_takes : Bool)
    (c : StorageCore) (entry : Entry)
    → (append_committed decode encode wal_takes c entry).0.job_index
      ≡ index_entry decode true c.job_index entry
unfolding append_committed
append_committed-job_index decode encode wal_takes c entry =
    let c' = record c {
      write_buffer = c.write_buffer ++ record { index = entry.index; bytes = encode entry } ∷ [];
      job_index = index_entry decode true c.job_index entry;
    } in
    elim (Bool-cases (leb c.flush_threshold (length c'.write_buffer))) [
      | inl e ↦ rw (e, append_committed) (flush_buffer-job_index wal_takes c')
      | inr e ↦ rw (e, append_committed) refl
    ]

update_indices-job_index : (c : StorageCore) → (update_indices c).job_index ≡ c.job_index
unfolding update_indices
update_indices-job_index c = elim (Bool-cases (length c.entries == 0)) [
  | inl e ↦ rw (e, update_indices) refl
  | inr e ↦ rw (e, update_indices) refl
]

-- The callback of the recovery on one more entry.
recover_loop-snoc :
    (decode : List ℕ → Option Command) (c : StorageCore) (es : List Entry) (entry : Entry)
    → (recover_loop decode c (es ++ entry ∷ [])).job_index
      ≡ index_entry decode false (recover_loop decode c es).job_index entry
unfolding recover_loop
recover_loop-snoc decode c [] entry = refl
recover_loop-snoc decode c (e ∷ es) entry =
    recover_loop-snoc decode
      (record c {
        entries = insert e.index e c.entries;
        job_index = index_entry decode false c.job_index e;
      })
      es entry

recover-snoc :
    (decode : List ℕ → Option Command) (c : StorageCore) (es : List Entry) (entry : Entry)
    → (recover decode c (es ++ entry ∷ [])).job_index
      ≡ index_entry decode false (recover decode c es).job_index entry
unfolding recover
recover-snoc decode c es entry =
    let c0 = record c { job_index = [] } in
    update_indices-job_index (recover_loop decode c0 (es ++ entry ∷ []))
    ∙ (recover_loop-snoc decode c0 es entry
        ∙ ap (λ m. index_entry decode false m entry)
            (sym (update_indices-job_index (recover_loop decode c0 es))))

-- Let an entry decode to a command that adds jobs. After `appendCommitted` of the entry, whether or not
-- its flush reaches the WAL, the record of each of these jobs has the entry's index and no completion
-- type, and the records of all other jobs are as before. After `recover` of a log that ends with the
-- entry, the records are those that `recover` makes of the log without it, but that each job of the
-- command has the entry's index: a completion type from before stays.
pub append_committed-recover :
    (decode : List ℕ → Option Command) (encode : Entry → List ℕ) (wal_takes : Bool)
    (c : StorageCore) (es : List Entry) (entry : Entry) (cmd : Command) (payload : AddJobsPayload)
    (id : String)
    → decode entry.payload ≡ some cmd
    → cmd.kind ≡ cmd_add_jobs
    → cmd.add_jobs ≡ some payload
    → (state_of (append_committed decode encode wal_takes c entry).0.job_index id ≡ (
        if adds_job id payload.jobs
        then record (state_of c.job_index id) { add_index = entry.index; complete_type = pending }
        else state_of c.job_index id))
      × (state_of (recover decode c (es ++ entry ∷ [])).job_index id ≡ (
          if adds_job id payload.jobs
          then record (state_of (recover decode c es).job_index id) { add_index = entry.index }
          else state_of (recover decode c es).job_index id))
append_committed-recover decode encode wal_takes c es entry cmd payload id d k a =
    let live = append_committed-job_index decode encode wal_takes c entry in
    let log = (recover decode c es).job_index in
    (
      ap (λ m. state_of m id) live
          ∙ index_entry-added decode true c.job_index entry cmd payload id d k a,
      ap (λ m. state_of m id) (recover-snoc decode c es entry)
          ∙ index_entry-added decode false log entry cmd payload id d k a,
    )
