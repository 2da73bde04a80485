-- ===== src/Wal/Tests.antt =====
-- internal/cluster/raft_segment.go: the theorems, applied to a log of three short files.
use cue.Base.{
  ℕ, ◌≡◌, refl, sym, List, [], ◌∷◌, ◌++◌, Option, none, some, ok, err, done, arith, map, length,
}
use cue.Storage.{Entry}
use cue.Wal.{
  SegmentedWal, new_segmented_wal, append_batch, recover_wal, truncate, encode_buffered_entry,
  entry_bytes, put_bytes, cut_off,
}
use cue.Wal.Files.{file_of, buffered_entry, Written, newer, entries_of}
use cue.Wal.Recovery.{Logs}
use cue.Wal.Appending.{new_segmented_wal-Contains, append_batch-Logs, recover_wal-append_batch}
use cue.Wal.Torn.{torn, recover_wal-torn}
use cue.Wal.Startup.{open_wal, rotation_files, sealed}
use cue.Wal.Startup.Upkeep.{Ready, append_batch-Ready, new_segmented_wal-Ready}
use cue.Wal.Startup.Crash.{Opens, open_wal-rotation_files}
use cue.Wal.Truncation.{recover_wal-truncate, truncate-everything}

-- A codec with a number for each field.
marshal : Entry → Option (List ℕ)
marshal e = some (e.index ∷ e.term ∷ e.payload)

unmarshal : List ℕ → Option Entry
unmarshal [] = none
unmarshal (i ∷ []) = none
unmarshal (i ∷ t ∷ payload) = some (record { index = i; term = t; payload = payload })

decodes : (e : Entry) (d : List ℕ) → marshal e ≡ some d → unmarshal d ≡ some e
unfolding marshal unmarshal
decodes e d h = let k : (e.index ∷ e.term ∷ e.payload) ≡ d = cc in rw (sym k) refl

abbrev entry : ℕ → Entry
entry i = record { index = i; term = 1; payload = 7 ∷ [] }

abbrev written : ℕ → Written
written i = (entry i, i ∷ 1 ∷ 7 ∷ [])

abbrev three : List Written
three = written 1 ∷ written 2 ∷ written 3 ∷ []

-- Every entry fills a file.
abbrev sw : SegmentedWal
sw = append_batch (new_segmented_wal 19) (map buffered_entry three)

sw-Logs : Logs unmarshal sw three
unfolding unmarshal
sw-Logs =
    append_batch-Logs unmarshal 1 (new_segmented_wal 19) [] three
      ([], [], (new_segmented_wal-Contains unmarshal 19, refl)) (new_segmented_wal-Ready 19)
      (omega arith, (omega arith, (omega arith, tt)))
      (
        (refl, (omega arith, omega arith)),
        ((refl, (omega arith, omega arith)), ((refl, (omega arith, omega arith)), tt)),
      )

sw-Ready : Ready 4 sw
sw-Ready =
    append_batch-Ready 1 (new_segmented_wal 19) three (new_segmented_wal-Ready 19)
      (omega arith, (omega arith, (omega arith, tt)))

sealed_twice : length sw.segments ≡ 2
unfolding append_batch new_segmented_wal entry_bytes put_bytes
sealed_twice = refl

-- Indices that do not grow: the second rotation seals to the path of the first, and its file is lost.
abbrev behind : SegmentedWal
behind =
    append_batch (record sw { next_index = 10; active = record sw.active { start_index = 10 } })
      (map buffered_entry (written 4 ∷ written 5 ∷ []))

same_path :
    map (λ s. s.content) behind.segments
    ≡ file_of (written 1 ∷ [])
      ∷ file_of (written 2 ∷ [])
      ∷ file_of (written 4 ∷ [])
      ∷ file_of (written 4 ∷ [])
      ∷ []
unfolding append_batch new_segmented_wal entry_bytes put_bytes
same_path = refl

recover_wal-append_batch_example :
    recover_wal unmarshal (append_batch sw (buffered_entry (written 4) ∷ [])) 2
    ≡ done (ok (newer 2 (entries_of three ++ entry 4 ∷ [])))
unfolding marshal unmarshal encode_buffered_entry entry_bytes put_bytes
recover_wal-append_batch_example =
    recover_wal-append_batch marshal unmarshal 4 sw three (entry 4 ∷ [])
      (buffered_entry (written 4) ∷ []) 2 decodes sw-Logs sw-Ready (omega arith, tt)
      ((refl, (omega arith, omega arith)), tt)

recover_wal-truncate_example :
    (sw' : SegmentedWal) × (log' : List Written) × ((truncate sw 2 ≡ done (ok sw'))
      × (Logs unmarshal sw' log' × (recover_wal unmarshal sw' 2 ≡ recover_wal unmarshal sw 2)))
recover_wal-truncate_example =
    recover_wal-truncate unmarshal sw three 2 2 sw-Logs
      ((omega arith, (omega arith, tt)), ((omega arith, tt), (tt, tt))) (omega arith)

truncate-everything_example :
    (sw' : SegmentedWal) × ((truncate sw 3 ≡ done (ok sw'))
      × (recover_wal unmarshal sw' 2 ≡ done (ok [])))
unfolding append_batch new_segmented_wal entry_bytes put_bytes
truncate-everything_example =
    truncate-everything unmarshal sw three 3 2 sw-Logs
      ((omega arith, (omega arith, tt)), ((omega arith, tt), (tt, tt)))
      (omega arith, (omega arith, (omega arith, tt))) (omega arith, (omega arith, tt)) (omega arith)

open_wal-rotation_files_example : Opens unmarshal (open_wal 19 (rotation_files sw sealed)) three
unfolding append_batch new_segmented_wal entry_bytes put_bytes
open_wal-rotation_files_example =
    open_wal-rotation_files unmarshal sw three 19 sealed sw-Logs
      ((omega arith, (omega arith, tt)), ((omega arith, tt), (tt, tt)))
      (
        ((refl, refl), ((refl, refl), tt)),
        ((refl, (refl, refl)), (omega arith, (refl, (omega arith, (refl, tt))))),
      )
      (omega arith)

append_batch-Ready_example :
    Ready 4 (append_batch (new_segmented_wal 19) (map buffered_entry three))
append_batch-Ready_example =
    append_batch-Ready 1 (new_segmented_wal 19) three (new_segmented_wal-Ready 19)
      (omega arith, (omega arith, (omega arith, tt)))

recover_wal-torn_example : recover_wal unmarshal (torn sw (written 4) 18) 1 ≡ done (err cut_off)
unfolding unmarshal
recover_wal-torn_example =
    recover_wal-torn unmarshal sw three (written 4) 18 1 sw-Logs (refl, (omega arith, omega arith))
      (omega arith)
