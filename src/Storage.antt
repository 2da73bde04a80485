-- ===== src/Storage.antt =====
-- internal/cluster/raft_storage.go: the storage of the raft log of a node, with the index of the jobs
-- that decides what compaction may drop. Log and index numbers do not wrap around. The segmented
-- WAL (module Wal) and the snapshot file are not part of this state: what the storage hands to them is a
-- result of the operation, and whether the WAL took a batch is an argument. `decode` stands for
-- `msgpack.Unmarshal`, `encode` for `encodeBufferedEntry`, `size` for `proto.Size`. A node works on
-- the storage under its lock, so that an operation is one step.
pub mod Append
pub mod Compact
pub mod Read
pub mod Faults
pub mod Recovery
mod Tests
use cue.Base.{
  ℕ, zero, suc, ◌+◌, ◌-◌, Bool, true, false, not, ◌&&◌, ◌||◌, List, [], ◌∷◌, ◌++◌, Option, none,
  some, String, if◌then◌else◌, length, drop, ltb, leb, ◌==◌, Result, ok, err, map, min, max,
}
use cue.Base.Key.{nat_key, string_key}
use cue.Base.Dict.{Dict, lookup, insert, erase}
use cue.Model.{Job, Command, cmd_add_jobs, cmd_done, cmd_drop}

-- `raftpb.Entry`
pub record Entry : Type 0 where
  pub index : ℕ
  pub term : ℕ
  pub payload : List ℕ

-- `CompleteType`: "", "done" and "drop"
pub data CompleteType : Type 0 where
  pending finished dropped : CompleteType

pub record JobState : Type 0 where
  pub add_index : ℕ
  pub complete_index : ℕ
  pub complete_type : CompleteType

abbrev pub zero_state : JobState
zero_state = record { add_index = 0; complete_index = 0; complete_type = pending }

pub record SnapshotMeta : Type 0 where
  pub index : ℕ
  pub term : ℕ

pub record BufferedEntry : Type 0 where
  pub index : ℕ
  pub bytes : List ℕ

pub record StorageCore : Type 0 where
  pub entries : Dict ℕ Entry
  pub hard_term : ℕ
  pub snapshot_meta : SnapshotMeta
  pub first_index : ℕ
  pub last_index : ℕ
  pub write_buffer : List BufferedEntry
  pub flush_threshold : ℕ
  pub job_index : Dict String JobState

-- `^uint64(0)`
abbrev pub max_uint64 : ℕ
max_uint64 = 18446744073709551615

-- The loop of `updateIndices`: the least and the greatest index.
unfoldable pub index_range : Dict ℕ Entry → ℕ → ℕ → ℕ × ℕ
index_range [] first last = (first, last)
index_range ((i, e) ∷ m) first last =
    index_range m (if ltb e.index first then e.index else first)
      (if ltb last e.index then e.index else last)

-- `updateIndices`
unfoldable pub update_indices : StorageCore → StorageCore
unfolding index_range
update_indices c = elim (length c.entries == 0) [
  | true ↦ record c { first_index = c.snapshot_meta.index + 1; last_index = c.snapshot_meta.index }
  | false ↦ record c {
    first_index = (index_range c.entries max_uint64 0).0;
    last_index = (index_range c.entries max_uint64 0).1;
  }
]

-- `for i := ...; i <= lastIndex; i++ { delete(c.entries, i) }`, with the rounds of the loop
unfoldable pub delete_tail : Dict ℕ Entry → ℕ → ℕ → Dict ℕ Entry
delete_tail m i zero = m
delete_tail m i (suc rounds) = delete_tail (erase i m) (suc i) rounds

-- The body of the loop of `appendEntries`.
unfoldable pub append_entry : StorageCore → Entry → StorageCore
unfolding delete_tail
append_entry c entry =
    let kept =
      if leb entry.index c.last_index
      then delete_tail c.entries entry.index (suc c.last_index - entry.index)
      else c.entries in
    record c {
      entries = insert entry.index entry kept;
      last_index = if ltb c.last_index entry.index then entry.index else c.last_index;
      first_index =
          if (c.first_index == 0) || ltb entry.index c.first_index
          then entry.index
          else c.first_index;
    }

-- `appendEntries`
unfoldable pub append_entries : StorageCore → List Entry → StorageCore
append_entries c [] = c
append_entries c (entry ∷ entries) = append_entries (append_entry c entry) entries

-- `c.jobIndex[jobID]`, made when it is missing
abbrev pub state_of : Dict String JobState → String → JobState
state_of m id = elim (lookup id m) [ none ↦ zero_state | some s ↦ s ]

-- The loop over the jobs of an added command. Only `appendCommitted` resets the completion of a job
-- that is added again; recovery does not.
unfoldable pub index_added : Bool → ℕ → Dict String JobState → List Job → Dict String JobState
index_added reset index m [] = m
index_added reset index m (job ∷ jobs) =
    let s = state_of m job.id in
    let complete = if reset then pending else s.complete_type in
    index_added reset index
      (insert job.id (record s { add_index = index; complete_type = complete }) m) jobs

-- The loop over the jobs of a done or a drop command.
unfoldable pub index_completed :
    CompleteType → ℕ → Dict String JobState → List String → Dict String JobState
index_completed how index m [] = m
index_completed how index m (id ∷ ids) =
    index_completed how index
      (insert id (record (state_of m id) { complete_index = index; complete_type = how }) m) ids

-- The `switch` on the type of the command, which `recover` and `appendCommitted` share but for the
-- reset. A done or drop command takes the first of its two payloads that is there.
unfoldable pub index_command :
    (reset : Bool) → ℕ → Dict String JobState → Command → Dict String JobState
unfolding index_added index_completed
index_command reset index m cmd = elim (cmd.kind == cmd_add_jobs) [
  | true ↦ elim cmd.add_jobs [ none ↦ m | some payload ↦ index_added reset index m payload.jobs ]
  | false ↦ elim ((cmd.kind == cmd_done) || (cmd.kind == cmd_drop)) [
    | false ↦ m
    | true ↦ elim cmd.done_jobs [
      | some payload ↦ index_completed finished index m payload.job_ids
      | none ↦ elim cmd.drop_jobs [
        | some payload ↦ index_completed dropped index m payload.job_ids
        | none ↦ m
      ]
    ]
  ]
]

module _ (decode : List ℕ → Option Command) where
  -- An entry whose bytes do not decode leaves the index as it is.
  unfoldable pub index_entry : Bool → Dict String JobState → Entry → Dict String JobState
  unfolding index_command
  index_entry reset m entry = elim (decode entry.payload) [
    | none ↦ m
    | some cmd ↦ index_command reset entry.index m cmd
  ]

  -- `recover`, where the WAL reads without an error: the callback of `wal.Recover` on its entries
  unfoldable pub recover_loop : StorageCore → List Entry → StorageCore
  unfolding index_entry
  recover_loop c [] = c
  recover_loop c (entry ∷ entries) =
      recover_loop
        (record c {
          entries = insert entry.index entry c.entries;
          job_index = index_entry false c.job_index entry;
        })
        entries

  unfoldable pub recover : StorageCore → List Entry → StorageCore
  unfolding recover_loop update_indices
  recover c recovered = update_indices (recover_loop (record c { job_index = [] }) recovered)

-- `flushBuffer`: the batch for the WAL, which takes it or not; only what it took leaves the buffer. The
-- error of a batch that is not taken, which callers only pass on, is left out.
unfoldable pub flush_buffer : (wal_takes : Bool) → StorageCore → StorageCore × List BufferedEntry
flush_buffer wal_takes c = elim (length c.write_buffer == 0) [
  | true ↦ (c, [])
  | false ↦ elim wal_takes [
    | false ↦ (c, [])
    | true ↦
        (record c { write_buffer = drop (length c.write_buffer) c.write_buffer }, c.write_buffer)
  ]
]

-- `appendCommitted`, for an entry that encodes, with the batch that its flush writes
unfoldable pub append_committed :
    (decode : List ℕ → Option Command)
    → (encode : Entry → List ℕ) → (wal_takes : Bool) → StorageCore
    → Entry
    → StorageCore × List BufferedEntry
unfolding index_entry flush_buffer
append_committed decode encode wal_takes c entry =
    let buffered : BufferedEntry = record { index = entry.index; bytes = encode entry } in
    let c' = record c {
      write_buffer = c.write_buffer ++ buffered ∷ [];
      job_index = index_entry decode true c.job_index entry;
    } in
    elim (leb c.flush_threshold (length c'.write_buffer)) [
      | true ↦ flush_buffer wal_takes c'
      | false ↦ (c', [])
    ]

-- `state.AddIndex > 0 && state.CompleteType == ""`
abbrev pub is_pending_type : CompleteType → Bool
is_pending_type pending = true
is_pending_type finished = false
is_pending_type dropped = false

abbrev pub is_pending : JobState → Bool
is_pending s = ltb 0 s.add_index && is_pending_type s.complete_type

-- The second loop of `findFirstIndexToKeep`.
unfoldable pub min_pending : Dict String JobState → ℕ → ℕ
min_pending [] least = least
min_pending ((id, s) ∷ m) least =
    min_pending m
      (if is_pending s && ((least == 0) || ltb s.add_index least) then s.add_index else least)

unfoldable pub max_complete : Dict String JobState → ℕ → ℕ
max_complete [] greatest = greatest
max_complete ((id, s) ∷ m) greatest =
    max_complete m (if ltb greatest s.complete_index then s.complete_index else greatest)

-- `findFirstIndexToKeep`
unfoldable pub find_first_index_to_keep : StorageCore → ℕ
unfolding min_pending max_complete
find_first_index_to_keep c =
    let least = min_pending c.job_index 0 in
    let greatest = max_complete c.job_index 0 in
    if not (least == 0) then least else if ltb 0 greatest then greatest + 1 else c.first_index

-- The loops of `compact` over the entries, each of which stands under its own index, and over the
-- index of the jobs; the two loops over the jobs are one here.
unfoldable pub drop_entries : ℕ → Dict ℕ Entry → Dict ℕ Entry
drop_entries up_to [] = []
drop_entries up_to ((i, e) ∷ m) =
    if ltb e.index up_to then drop_entries up_to m else (i, e) ∷ drop_entries up_to m

-- `state.CompleteIndex > 0 && state.CompleteIndex < upToIndex`, or `js.AddIndex < upToIndex`
abbrev pub is_compacted : ℕ → JobState → Bool
is_compacted up_to s =
    (ltb 0 s.complete_index && ltb s.complete_index up_to) || ltb s.add_index up_to

unfoldable pub drop_jobs : ℕ → Dict String JobState → Dict String JobState
drop_jobs up_to [] = []
drop_jobs up_to ((id, s) ∷ m) =
    if is_compacted up_to s then drop_jobs up_to m else (id, s) ∷ drop_jobs up_to m

-- What `compact` does past its guard. `update_indices` comes before the new snapshot metadata, as in
-- the source.
unfoldable pub compacted_to : ℕ → StorageCore → StorageCore
unfolding drop_entries drop_jobs update_indices
compacted_to up_to c =
    record (update_indices (record c { entries = drop_entries up_to c.entries })) {
      job_index = drop_jobs up_to c.job_index;
      snapshot_meta = record { index = up_to - 1; term = c.hard_term };
    }

-- `compact`, with the index at which the WAL is truncated
unfoldable pub compact : StorageCore → StorageCore × Option ℕ
unfolding find_first_index_to_keep compacted_to
compact c = elim (leb (find_first_index_to_keep c) c.first_index) [
  | true ↦ (c, none)
  | false ↦ (compacted_to (find_first_index_to_keep c) c, some (find_first_index_to_keep c))
]

pub data ReadError : Type 0 where
  compacted unavailable : ReadError

-- The loop of `Entries`, with the rounds that are left.
unfoldable pub entries_from :
    (size : Entry → ℕ)
    → StorageCore
    → (max_size : ℕ) → ℕ
    → (rounds : ℕ) → (total : ℕ) → Result ReadError (List Entry)
entries_from size c max_size idx zero total = ok []
entries_from size c max_size idx (suc rounds) total = elim (lookup idx c.entries) [
  | none ↦ err unavailable
  | some entry ↦ elim (ltb 0 max_size && ltb max_size (total + size entry)) [
    | true ↦ ok []
    | false ↦ elim (entries_from size c max_size (suc idx) rounds (total + size entry)) [
      | err e ↦ err e
      | ok more ↦ ok (entry ∷ more)
    ]
  ]
]

-- `Entries`
unfoldable pub entries_between :
    (size : Entry → ℕ) → StorageCore → (lo hi max_size : ℕ) → Result ReadError (List Entry)
unfolding entries_from
entries_between size c lo hi max_size =
    if ltb lo c.first_index
    then err compacted
    else if ltb (c.last_index + 1) hi
    then err unavailable
    else entries_from size c max_size lo (hi - lo) 0

-- `Term`
unfoldable pub term : StorageCore → ℕ → Result ReadError ℕ
term c idx =
    if idx == c.snapshot_meta.index
    then ok c.snapshot_meta.term
    else if (idx == 0) && (c.snapshot_meta.index == 1)
    then ok 1
    else if ltb idx c.first_index
    then err compacted
    else if ltb c.last_index idx
    then err unavailable
    else elim (lookup idx c.entries) [ some entry ↦ ok entry.term | none ↦ err unavailable ]

-- `GetCompletedJobIDs`
abbrev pub is_completed : JobState → Bool
is_completed s =
    ltb 0 s.add_index && not (is_pending_type s.complete_type) && leb s.add_index s.complete_index

unfoldable pub get_completed_job_ids : Dict String JobState → List String
get_completed_job_ids [] = []
get_completed_job_ids ((id, s) ∷ m) =
    let rest = get_completed_job_ids m in if is_completed s then id ∷ rest else rest

-- `installSnapshot` and `setHardState`, for the term that the storage reads of it
unfoldable pub install_snapshot : StorageCore → SnapshotMeta → StorageCore
install_snapshot c new_meta = record c { snapshot_meta = new_meta }

unfoldable pub set_hard_state : StorageCore → ℕ → StorageCore
set_hard_state c new_term = record c { hard_term = new_term }
