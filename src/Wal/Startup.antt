-- ===== src/Wal/Startup.antt =====
-- internal/cluster/raft_segment.go: NewSegmentedWal on the files of a directory, and the directories
-- that a rotation goes through. Starts are distinct, so that `sort.Slice` has one result; removing the
-- temporary files, which no segment uses, is left out.
pub mod Reopening
pub mod Upkeep
pub mod Crash
use cue.Base.{
  ℕ, ◌+◌, ◌-◌, Bool, true, false, not, List, [], ◌∷◌, ◌++◌, Option, none, some, map, if◌then◌else◌,
  length, leb, ltb, ◌==◌, Result, ok, err, Run, done, ◌>>=◌,
}
use cue.Wal.{Segment, SegmentedWal, WalError, new_active, rotate, scan_last_index}

-- A file by its name: `%016d.active`, `%016d-%016d.wal`, `%016d.tmp`, or one that parseSegment refuses.
pub data WalFile : Type 0 where
  active_file : (start_index : ℕ) (content : List ℕ) → WalFile
  sealed_file : (start_index end_index : ℕ) (content : List ℕ) → WalFile
  temp_file : (next_index : ℕ) → WalFile
  other_file : WalFile

-- `parseSegment`
unfoldable pub parse_segment : WalFile → Option Segment
parse_segment (active_file start content) = some (record {
  start_index = start;
  end_index = 0;
  content = content;
  size = length content;
  active = true;
})
parse_segment (sealed_file start last content) = some (record {
  start_index = start;
  end_index = last;
  content = content;
  size = length content;
  active = false;
})
parse_segment (temp_file next) = none
parse_segment other_file = none

-- The loop that parses the files and skips those it cannot parse.
unfoldable pub parse_segments : List WalFile → List Segment
unfolding parse_segment
parse_segments [] = []
parse_segments (f ∷ fs) = elim (parse_segment f) [
  | none ↦ parse_segments fs
  | some seg ↦ seg ∷ parse_segments fs
]

-- `sort.Slice` by the start
unfoldable pub insert_by_start : Segment → List Segment → List Segment
insert_by_start seg [] = seg ∷ []
insert_by_start seg (t ∷ ts) =
    let later = t ∷ insert_by_start seg ts in
    if ltb t.start_index seg.start_index then later else seg ∷ t ∷ ts

unfoldable pub sort_by_start : List Segment → List Segment
unfolding insert_by_start
sort_by_start [] = []
sort_by_start (seg ∷ segs) = insert_by_start seg (sort_by_start segs)

-- `validateContinuity`
unfoldable pub is_continuous : List Segment → Bool
is_continuous [] = true
is_continuous (prev ∷ []) = true
is_continuous (prev ∷ curr ∷ segs) =
    let rest = is_continuous (curr ∷ segs) in
    if prev.end_index + 1 == curr.start_index then rest else false

pub data OpenError : Type 0 where
  gap multiple_active : OpenError
  scan_failed : WalError → OpenError

-- The loop that separates the sealed segments from the active one.
unfoldable pub separate :
    List Segment → List Segment → Option Segment → Result OpenError (List Segment × Option Segment)
separate [] sealed active = ok (sealed, active)
separate (seg ∷ segs) sealed active = elim seg.active [
  | false ↦ separate segs (sealed ++ seg ∷ []) active
  | true ↦ elim active [ none ↦ separate segs sealed (some seg) | some other ↦ err multiple_active ]
]

abbrev pub default_size : ℕ → ℕ
default_size segment_size = if ltb 0 segment_size then segment_size else 104857600

-- A log without an active segment, which makes one.
unfoldable pub with_new_active : (segment_size : ℕ) → List Segment → (next_index : ℕ) → SegmentedWal
unfolding new_active
with_new_active segment_size sealed next_index = record {
  segments = sealed;
  active = new_active next_index;
  next_index = next_index;
  segment_size = default_size segment_size;
}

-- The end of the last sealed segment.
unfoldable pub last_end : List Segment → Option ℕ
last_end [] = none
last_end (seg ∷ []) = some seg.end_index
last_end (seg ∷ t ∷ segs) = last_end (t ∷ segs)

-- `Handle active segment`
unfoldable pub resume :
    (segment_size : ℕ) → List Segment × Option Segment → Run (Result OpenError SegmentedWal)
unfolding with_new_active last_end scan_last_index
resume segment_size (sealed, some active) = scan_last_index active >>= λ r. elim r [
  | err e ↦ done (err (scan_failed e))
  | ok last ↦ done (
      ok (record {
        segments = sealed;
        active = active;
        next_index = last + 1;
        segment_size = default_size segment_size;
      }))
]
resume segment_size (sealed, none) = elim (last_end sealed) [
  | some last ↦ done (ok (with_new_active segment_size sealed (last + 1)))
  | none ↦ done (ok (with_new_active segment_size sealed 1))
]

-- `NewSegmentedWal`
unfoldable pub open_wal : (segment_size : ℕ) → List WalFile → Run (Result OpenError SegmentedWal)
unfolding parse_segments sort_by_start is_continuous separate resume
open_wal segment_size files =
    let segs = sort_by_start (parse_segments files) in
    if is_continuous segs
    then elim (separate segs [] none) [
      | err e ↦ done (err e)
      | ok found ↦ resume segment_size found
    ]
    else done (err gap)

-- The file of a segment, under the name that the code gives it.
unfoldable pub segment_file : Segment → WalFile
segment_file seg =
    if seg.active
    then active_file seg.start_index seg.content
    else sealed_file seg.start_index seg.end_index seg.content

unfoldable pub files : SegmentedWal → List WalFile
unfolding segment_file
files sw = map segment_file (sw.segments ++ sw.active ∷ [])

-- `rotate`, up to a crash: before it, with the temporary file made, with the active file renamed to a
-- sealed one, and with the temporary file renamed to the active one.
pub data RotationPoint : Type 0 where
  untouched temp_made sealed promoted : RotationPoint

unfoldable pub rotation_files : SegmentedWal → RotationPoint → List WalFile
unfolding files segment_file rotate
rotation_files sw untouched = files sw
rotation_files sw temp_made = files sw ++ temp_file sw.next_index ∷ []
rotation_files sw sealed = map segment_file (rotate sw).segments ++ temp_file sw.next_index ∷ []
rotation_files sw promoted = files (rotate sw)
