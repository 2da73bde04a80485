-- ===== src/Storage/Append.antt =====
-- internal/cluster/raft_storage.go: what `appendEntries` leaves in the log.
use cue.Base.{
  ℕ, zero, suc, ◌+◌, ◌-◌, ◌<◌, ◌≡◌, ◌∙◌, inl, inr, ◌&&◌, none, some, if◌then◌else◌, ltb, leb, ◌==◌,
  ==_iff, arith, Bool-cases,
}
use cue.Base.Key.{nat_key}
use cue.Base.Dict.{Dict, lookup, erase, lookup-insert, lookup-erase}
use cue.Storage.{Entry, StorageCore, delete_tail, append_entry}

-- The loop deletes the indices from `i` on, as many as it has rounds, and no other.
pub lookup-delete_tail :
    (m : Dict ℕ Entry) (i rounds j : ℕ)
    → lookup j (delete_tail m i rounds)
      ≡ (if leb i j && ltb j (i + rounds) then none else lookup j m)
unfolding delete_tail
lookup-delete_tail m i zero j = ground arith
lookup-delete_tail m i (suc rounds) j =
    lookup-delete_tail (erase i m) (suc i) rounds j ∙ ground (arith, lookup-erase i j m, ==_iff i j)

-- After `appendEntries` takes an entry, the log has that entry at its index, nothing from there up
-- to the last index, and all else as it was.
pub append_entry-lookup :
    (c : StorageCore) (entry : Entry) (i : ℕ)
    → lookup i (append_entry c entry).entries ≡ (
        if entry.index == i
        then some entry
        else if leb entry.index i && leb i c.last_index
        then none
        else lookup i c.entries)
unfolding append_entry
append_entry-lookup c entry i = elim (Bool-cases (leb entry.index c.last_index)) [
  | inl e ↦ rw e (
      lookup-insert entry.index i entry _
      ∙ ground (arith, lookup-delete_tail c.entries entry.index (suc c.last_index - entry.index) i))
  | inr e ↦ rw e (lookup-insert entry.index i entry _ ∙ ground arith)
]

-- An append below the last index leaves the last index as it was, and the log without an entry there.
pub append_entry-stale_last :
    (c : StorageCore) (entry : Entry)
    → entry.index < c.last_index
    → ((append_entry c entry).last_index ≡ c.last_index)
      × (lookup c.last_index (append_entry c entry).entries ≡ none)
unfolding append_entry
append_entry-stale_last c entry lt =
    (ground arith, append_entry-lookup c entry c.last_index ∙ ground arith)
