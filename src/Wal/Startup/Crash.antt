-- ===== src/Wal/Startup/Crash.antt =====
-- internal/cluster/raft_segment.go: a start after a crash during a rotation.
use mathlib.Core.List.{append_assoc, append-nil, map-append}
use cue.Base.{
  ℕ, ◌+◌, ◌<◌, ◌≡◌, refl, sym, ap, subst, ◌∙◌, List, [], ◌∷◌, ◌++◌, Option, none, some, map, All,
  Result, ok, Run, done, arith,
}
use cue.Storage.{Entry}
use cue.Wal.{Segment, SegmentedWal, rotate}
use cue.Wal.Files.{Written, last_of}
use cue.Wal.Recovery.{Holds, Sealed, joined, joined-append, Logs}
use cue.Wal.Appending.{rotate-Contains, rotate-Logs}
use cue.Wal.Truncation.{
  Ascending, Ascending-append, last_of-Ascending, scan_last_index-Holds, All-map,
}
use cue.Wal.Startup.{
  parse_segments, segment_file, resume, open_wal, files, last_end, with_new_active, RotationPoint,
  untouched, temp_made, sealed, promoted, rotation_files, OpenError, default_size, temp_file,
  WalFile,
}
use cue.Wal.Startup.Upkeep.{Tidy, rotate-Tidy, Chain-prefix}
use cue.Wal.Startup.Reopening.{open_wal-active, open_wal-sealed}

-- The start ends with a log of these entries.
abbrev pub Opens :
    (List ℕ → Option Entry) → Run (Result OpenError SegmentedWal) → List Written → Type 0
Opens unmarshal r log = (sw : SegmentedWal) × ((r ≡ done (ok sw)) × Logs unmarshal sw log)

resume-active :
    (unmarshal : List ℕ → Option Entry) (size bound : ℕ) (segs : List Segment)
    (wss : List (List Written)) (seg : Segment) (ws : List Written)
    → Sealed unmarshal segs wss
    → Holds unmarshal bound seg ws
    → Ascending ws
    → Opens unmarshal (resume size (segs, some seg)) (joined wss ++ ws)
unfolding resume
resume-active unmarshal size bound segs wss seg ws s (c, (rs, b)) asc =
    let below : All (λ w. w.0.index < last_of 0 ws + 1) ws =
      All-map ws (λ w k. omega (arith, k))
        (last_of-Ascending ws (last_of 0 ws) asc (omega arith)) in
    (
      record {
        segments = segs;
        active = seg;
        next_index = last_of 0 ws + 1;
        segment_size = default_size size;
      },
      (
        rw (resume, scan_last_index-Holds unmarshal bound seg ws (c, (rs, b))) refl,
        (wss, ws, ((s, (c, (rs, below))), refl)),
      ),
    )

new_active-Opens :
    (unmarshal : List ℕ → Option Entry) (size next : ℕ) (segs : List Segment)
    (wss : List (List Written))
    → Sealed unmarshal segs wss
    → Opens unmarshal (done (ok (with_new_active size segs next))) (joined wss)
unfolding with_new_active
new_active-Opens unmarshal size next segs wss s = (
  with_new_active size segs next,
  (refl, (wss, [], ((s, (refl, (tt, tt))), append-nil (joined wss)))),
)

resume-none :
    (unmarshal : List ℕ → Option Entry) (size : ℕ) (segs : List Segment) (wss : List (List Written))
    → Sealed unmarshal segs wss
    → Opens unmarshal (resume size (segs, none)) (joined wss)
unfolding resume
resume-none unmarshal size segs wss s =
    elim (last_end segs)
      as (λ o.
        Opens unmarshal
          (elim o [
            | some last ↦ done (ok (with_new_active size segs (last + 1)))
            | none ↦ done (ok (with_new_active size segs 1))
          ])
          (joined wss)) [
            | some last ↦ new_active-Opens unmarshal size (last + 1) segs wss s
            | none ↦ new_active-Opens unmarshal size 1 segs wss s
          ]

-- A start on the files of a log, with files that are no segments.
open_wal-Tidy :
    (unmarshal : List ℕ → Option Entry) (sw : SegmentedWal) (log : List Written) (size : ℕ)
    (rest : List WalFile)
    → Logs unmarshal sw log
    → Ascending log
    → Tidy sw
    → parse_segments rest ≡ []
    → Opens unmarshal (open_wal size (files sw ++ rest)) log
unfolding files
open_wal-Tidy unmarshal sw log size rest (wss, ws, ((s, h), e)) asc (ss, (a, c)) r =
    let named : map segment_file (sw.segments ++ sw.active ∷ []) ++ rest
        ≡ map segment_file sw.segments ++ segment_file sw.active ∷ rest =
      rw (map-append segment_file sw.segments (sw.active ∷ []))
        (append_assoc (map segment_file sw.segments) (segment_file sw.active ∷ []) rest) in
    let opened = open_wal-active size sw.segments sw.active rest ss a c r in
    let suffix = Ascending-append (joined wss) ws (subst Ascending (sym e) asc) in
    subst
      (Opens unmarshal (open_wal size (map segment_file (sw.segments ++ sw.active ∷ []) ++ rest))) e
      (subst (λ x. Opens unmarshal x (joined wss ++ ws)) (sym (ap (open_wal size) named ∙ opened))
        (resume-active unmarshal size sw.next_index sw.segments wss sw.active ws s h suffix))

-- A start on sealed segments only.
open_wal-Sealed :
    (unmarshal : List ℕ → Option Entry) (sw : SegmentedWal) (log : List Written) (size : ℕ)
    (rest : List WalFile)
    → Logs unmarshal sw log
    → Tidy sw
    → Tidy (rotate sw)
    → parse_segments rest ≡ []
    → Opens unmarshal (open_wal size (map segment_file (rotate sw).segments ++ rest)) log
open_wal-Sealed unmarshal sw log size rest (wss, ws, (h, e)) t (ss, (a, c)) r =
    let s = rotate-Contains unmarshal sw wss ws h t.1.1 in
    let opened =
      open_wal-sealed size (rotate sw).segments rest ss
        (Chain-prefix (rotate sw).segments ((rotate sw).active ∷ []) c) r in
    subst (Opens unmarshal (open_wal size (map segment_file (rotate sw).segments ++ rest)))
      (joined-append wss ws ∙ e)
      (subst (λ x. Opens unmarshal x (joined (wss ++ ws ∷ []))) (sym opened)
        (resume-none unmarshal size (rotate sw).segments (wss ++ ws ∷ []) s.0))

-- Let the files of the log hold entries of growing indices, let its segments be marked and linked as
-- the code keeps them, and let its active segment start below the next index, as it does once an entry
-- was written to it. A crash at any point of a rotation leaves files with which NewSegmentedWal
-- returns a log of the same entries.
pub open_wal-rotation_files :
    (unmarshal : List ℕ → Option Entry) (sw : SegmentedWal) (log : List Written) (size : ℕ)
    (point : RotationPoint)
    → Logs unmarshal sw log
    → Ascending log
    → Tidy sw
    → sw.active.start_index < sw.next_index
    → Opens unmarshal (open_wal size (rotation_files sw point)) log
unfolding rotation_files parse_segments
open_wal-rotation_files unmarshal sw log size untouched l asc t h =
    rw (sym (append-nil (files sw))) (open_wal-Tidy unmarshal sw log size [] l asc t refl)
open_wal-rotation_files unmarshal sw log size temp_made l asc t h =
    open_wal-Tidy unmarshal sw log size (temp_file sw.next_index ∷ []) l asc t refl
open_wal-rotation_files unmarshal sw log size sealed l asc t h =
    open_wal-Sealed unmarshal sw log size (temp_file sw.next_index ∷ []) l t (rotate-Tidy sw t h)
      refl
open_wal-rotation_files unmarshal sw log size promoted l asc t h =
    rw (sym (append-nil (files (rotate sw)))) (
      open_wal-Tidy unmarshal (rotate sw) log size [] (rotate-Logs unmarshal sw log l t.1.1) asc
        (rotate-Tidy sw t h) refl)
