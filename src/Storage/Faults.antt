-- ===== src/Storage/Faults.antt =====
-- internal/cluster/raft_storage.go: runs of `compact` that lose what the log needs.
use cue.Base.{ℕ, ◌-◌, ◌<◌, ◌≡◌, refl, true, none, some, arith, [], String}
use cue.Base.Key.{nat_key, string_key}
use cue.Base.Dict.{lookup, Keyed}
use cue.Storage.{
  StorageCore, JobState, is_pending, is_compacted, find_first_index_to_keep, drop_entries, compact,
  compacted_to, update_indices,
}
use cue.Storage.Compact.{compact-past, compacted_to-job_index, lookup-drop_jobs-outdated}

-- In an index that has each job once, a pending job that had been completed, and was then added
-- again, leaves the index at a compaction that keeps the log only from an index past that
-- completion on.
pub compact-forgets_readded :
    (c : StorageCore) (id : String) (s : JobState)
    → Keyed c.job_index
    → lookup id c.job_index ≡ some s
    → is_pending s ≡ true
    → 0 < s.complete_index
    → s.complete_index < find_first_index_to_keep c
    → c.first_index < find_first_index_to_keep c
    → lookup id (compact c).0.job_index ≡ none
compact-forgets_readded c id s keyed found p was before lt =
    let up_to = find_first_index_to_keep c in
    let out : is_compacted up_to s ≡ true = ground (arith, was, before) in
    rw (compact-past c lt) (
      rw (compacted_to-job_index up_to c)
        (lookup-drop_jobs-outdated up_to c.job_index id s keyed found out))

compacted_to-emptied :
    (up_to : ℕ) (c : StorageCore)
    → drop_entries up_to c.entries ≡ []
    → ((compacted_to up_to c).last_index ≡ c.snapshot_meta.index)
      × ((compacted_to up_to c).snapshot_meta.index ≡ up_to - 1)
unfolding compacted_to update_indices
compacted_to-emptied up_to c gone = (rw (gone, update_indices) refl, refl)

-- Where a compaction drops every entry, the last index of the log falls back to the index of the
-- snapshot from before, although the new snapshot ends just before the index that is kept.
pub compact-emptied :
    (c : StorageCore)
    → c.first_index < find_first_index_to_keep c
    → drop_entries (find_first_index_to_keep c) c.entries ≡ []
    → ((compact c).0.last_index ≡ c.snapshot_meta.index)
      × ((compact c).0.snapshot_meta.index ≡ find_first_index_to_keep c - 1)
compact-emptied c lt gone =
    rw (compact-past c lt) (compacted_to-emptied (find_first_index_to_keep c) c gone)
