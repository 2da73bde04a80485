-- ===== src/Wal/Reading.antt =====
-- internal/cluster/raft_segment.go: NewReader and the Reader's ReadEntry. A reader carries the bytes that
-- it has not read of its file, and the segments behind it; closing files is left out.
use cue.Base.{
  ℕ, zero, suc, ◌+◌, true, false, List, [], ◌∷◌, ◌++◌, Option, none, some, ◌&&◌, if◌then◌else◌,
  length, drop, leb, Result, ok, err, Run, done, panics, ◌>>=◌,
}
use cue.Storage.{Entry}
use cue.Wal.{Segment, SegmentedWal, WalError, at_end, not_found, read_header, read_entry}

pub record Reader : Type 0 where
  pub unread : List ℕ
  pub later : List Segment

-- The loop of `NewReader` that looks for the segment of an index.
unfoldable pub find_segment : List Segment → (from_index : ℕ) → Option (Segment × List Segment)
find_segment [] from_index = none
find_segment (seg ∷ segs) from_index =
    let rest = find_segment segs from_index in
    if seg.active
    then (if leb seg.start_index from_index then some (seg, segs) else rest)
    else if leb seg.start_index from_index && leb from_index seg.end_index
    then some (seg, segs)
    else rest

-- `Skip to target index`: the bytes from the first entry with that index or a greater one
unfoldable pub skip_to : (fuel : ℕ) → List ℕ → (pos from_index : ℕ) → Run (Result WalError (List ℕ))
skip_to zero content pos from_index = panics
skip_to (suc fuel) content pos from_index = elim (read_header (drop pos content)) [
  | err at_end ↦ done (err not_found)
  | err e ↦ done (err e)
  | ok (header, rest) ↦ elim (leb from_index header.index) [
    | true ↦ done (ok (drop pos content))
    | false ↦ skip_to fuel content (pos + header.total) from_index
  ]
]

-- `NewReader`
unfoldable pub new_reader : SegmentedWal → (from_index : ℕ) → Run (Result WalError Reader)
unfolding find_segment skip_to
new_reader sw from_index = elim (find_segment (sw.segments ++ sw.active ∷ []) from_index) [
  | none ↦ done (err not_found)
  | some (seg, segs) ↦ skip_to (suc (length seg.content)) seg.content 0 from_index >>= λ r. elim r [
    | err e ↦ done (err e)
    | ok bytes ↦ done (ok (record { unread = bytes; later = segs }))
  ]
]

-- The loop of the Reader's `ReadEntry`: at an error of any kind it goes on with the next segment.
unfoldable pub next_entry :
    (List ℕ → Option Entry) → List ℕ → List Segment → Run (Result WalError (Entry × Reader))
next_entry unmarshal unread [] = read_entry unmarshal unread >>= λ r. elim r [
  | err e ↦ done (err at_end)
  | ok (entry, rest) ↦ done (ok (entry, record { unread = rest; later = [] }))
]
next_entry unmarshal unread (seg ∷ segs) = read_entry unmarshal unread >>= λ r. elim r [
  | err e ↦ next_entry unmarshal seg.content segs
  | ok (entry, rest) ↦ done (ok (entry, record { unread = rest; later = seg ∷ segs }))
]

-- The Reader's `ReadEntry`
unfoldable pub read_next : (List ℕ → Option Entry) → Reader → Run (Result WalError (Entry × Reader))
unfolding next_entry
read_next unmarshal r = next_entry unmarshal r.unread r.later
