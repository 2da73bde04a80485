-- ===== src/Wal.antt =====
-- internal/cluster/raft_segment.go and helper.go: the segmented write-ahead log. A segment carries the
-- bytes of its file; `marshal` and `unmarshal` stand for `proto.Marshal` and `proto.Unmarshal`. File
-- operations succeed, sizes stay below 2^63, and file names are taken as the numbers in them. A loop
-- that never ends, and `make` of a negative length, are `panics`.
pub mod Bytes
pub mod Files
pub mod Recovery
pub mod Appending
pub mod Truncation
pub mod Torn
pub mod Reading
pub mod Startup
mod Tests
use cue.Base.{
  ℕ, zero, suc, ◌+◌, ◌-◌, ◌*◌, ◌/◌, ◌%◌, Bool, true, false, ◌&&◌, List, [], ◌∷◌, ◌++◌, Option, none,
  some, if◌then◌else◌, length, take, drop, ltb, leb, ◌==◌, Result, ok, err, Run, done, panics,
  ◌>>=◌, select,
}
use cue.Storage.{Entry, BufferedEntry}

-- `binary.LittleEndian`: the `n` low bytes of a number, and the number of some bytes
unfoldable pub put_bytes : ℕ → ℕ → List ℕ
put_bytes zero v = []
put_bytes (suc n) v = v % 256 ∷ put_bytes n (v / 256)

unfoldable pub get_bytes : List ℕ → ℕ
get_bytes [] = 0
get_bytes (b ∷ bs) = b + 256 * get_bytes bs

-- An entry in a file: its size with the header, its index, and its data.
unfoldable pub entry_bytes : ℕ → List ℕ → List ℕ
entry_bytes index bytes = put_bytes 8 (16 + length bytes) ++ (put_bytes 8 index ++ bytes)

-- `encodeBufferedEntry`
unfoldable pub encode_buffered_entry : (Entry → Option (List ℕ)) → Entry → Option BufferedEntry
encode_buffered_entry marshal entry = elim (marshal entry) [
  | none ↦ none
  | some bytes ↦ some (record { index = entry.index; bytes = entry_bytes entry.index bytes })
]

-- `io.EOF`, `io.ErrUnexpectedEOF`, and the errors of an entry that does not decode
pub data WalError : Type 0 where
  at_end cut_off bad_entry index_mismatch not_found : WalError

-- `io.ReadFull`, with the bytes behind
unfoldable pub read_full : ℕ → List ℕ → Result WalError (List ℕ × List ℕ)
read_full n bytes =
    if n == 0
    then ok ([], bytes)
    else if length bytes == 0
    then err at_end
    else if ltb (length bytes) n
    then err cut_off
    else ok (take n bytes, drop n bytes)

pub record Header : Type 0 where
  pub index : ℕ
  pub total : ℕ

-- `ReadHeader`
unfoldable pub read_header : List ℕ → Result WalError (Header × List ℕ)
read_header bytes = elim (read_full 16 bytes) [
  | err e ↦ err e
  | ok (header, rest) ↦
      ok (record { index = get_bytes (drop 8 header); total = get_bytes (take 8 header) }, rest)
]

-- The data of an entry whose header was read.
unfoldable pub decode_entry :
    (List ℕ → Option Entry) → Header → List ℕ → List ℕ → Result WalError (Entry × List ℕ)
decode_entry unmarshal header bytes rest = elim (unmarshal bytes) [
  | none ↦ err bad_entry
  | some entry ↦ if entry.index == header.index then ok (entry, rest) else err index_mismatch
]

-- `WALReader.ReadEntry`
unfoldable pub read_entry :
    (List ℕ → Option Entry) → List ℕ → Run (Result WalError (Entry × List ℕ))
read_entry unmarshal bytes = elim (read_header bytes) [
  | err e ↦ done (err e)
  | ok (header, rest) ↦
      if ltb header.total 16 then panics else elim (read_full (header.total - 16) rest) [
        | err e ↦ done (err e)
        | ok (payload, rest') ↦ done (decode_entry unmarshal header payload rest')
      ]
]

pub record Segment : Type 0 where
  pub start_index : ℕ
  pub end_index : ℕ
  pub content : List ℕ
  pub size : ℕ
  pub active : Bool

pub record SegmentedWal : Type 0 where
  pub segments : List Segment
  pub active : Segment
  pub next_index : ℕ
  pub segment_size : ℕ

-- `createActiveSegment`, for a file that is new
unfoldable pub new_active : ℕ → Segment
new_active start = record {
  start_index = start;
  end_index = 0;
  content = [];
  size = 0;
  active = true;
}

-- `NewSegmentedWal` on an empty directory
unfoldable pub new_segmented_wal : (segment_size : ℕ) → SegmentedWal
unfolding new_active
new_segmented_wal segment_size = record {
  segments = [];
  active = new_active 1;
  next_index = 1;
  segment_size = if ltb 0 segment_size then segment_size else 104857600;
}

-- `os.Rename` to the path of a sealed segment, which is made of its two indices: the segments that have
-- the same path find the new file there.
unfoldable pub overwritten : Segment → List Segment → List Segment
overwritten sealed [] = []
overwritten sealed (seg ∷ segs) =
    let segs' = overwritten sealed segs in
    if (seg.start_index == sealed.start_index) && (seg.end_index == sealed.end_index)
    then record seg { content = sealed.content } ∷ segs'
    else seg ∷ segs'

-- `rotate`
unfoldable pub rotate : SegmentedWal → SegmentedWal
unfolding new_active overwritten
rotate sw =
    let old = record sw.active { end_index = sw.next_index - 1; active = false } in
    record sw {
      segments = overwritten old sw.segments ++ old ∷ [];
      active = new_active sw.next_index;
    }

-- The writing part of the loop of `AppendBatch`.
unfoldable pub write_entry : SegmentedWal → BufferedEntry → SegmentedWal
write_entry sw be = record sw {
  active = record sw.active {
    content = sw.active.content ++ be.bytes;
    size = sw.active.size + length be.bytes;
  };
  next_index = if ltb sw.next_index (be.index + 1) then be.index + 1 else sw.next_index;
}

-- The body of the loop of `AppendBatch`.
unfoldable pub append_buffered : SegmentedWal → BufferedEntry → SegmentedWal
unfolding rotate write_entry
append_buffered sw be =
    write_entry (if leb sw.segment_size sw.active.size then rotate sw else sw) be

-- `AppendBatch`
unfoldable pub append_batch : SegmentedWal → List BufferedEntry → SegmentedWal
unfolding append_buffered
append_batch sw [] = sw
append_batch sw (be ∷ batch) = append_batch (append_buffered sw be) batch

-- The loop of `scanLastIndex` from a position on: a header, and a seek over the data that also goes
-- back for a size below 16. Only a size of 0 keeps it from the end of the file.
unfoldable pub scan_from : (fuel : ℕ) → List ℕ → (pos last : ℕ) → Run (Result WalError ℕ)
unfolding read_header
scan_from zero content pos last = panics
scan_from (suc fuel) content pos last = elim (read_header (drop pos content)) [
  | err at_end ↦ done (ok last)
  | err e ↦ done (err e)
  | ok (header, rest) ↦ scan_from fuel content (pos + header.total) header.index
]

-- `scanLastIndex`; each round but one at a size of 0 goes a byte on
unfoldable pub scan_last_index : Segment → Run (Result WalError ℕ)
unfolding scan_from
scan_last_index seg = scan_from (suc (length seg.content)) seg.content 0 0

-- The loop of `Recover` over one file: the entries that the callback gets. A round takes 16 bytes.
unfoldable pub recover_file :
    (List ℕ → Option Entry) → (fuel : ℕ) → ℕ → List ℕ → Run (Result WalError (List Entry))
unfolding read_entry
recover_file unmarshal zero snapshot_index bytes = panics
recover_file unmarshal (suc fuel) snapshot_index bytes = read_entry unmarshal bytes >>= λ r.
    elim r [
      | err at_end ↦ done (ok [])
      | err e ↦ done (err e)
      | ok (entry, rest) ↦ recover_file unmarshal fuel snapshot_index rest >>= λ more. elim more [
        | err e ↦ done (err e)
        | ok entries ↦
            done (ok (if ltb snapshot_index entry.index then entry ∷ entries else entries))
      ]
    ]

-- `Recover`: the loop over the segments
unfoldable pub recover_all :
    (List ℕ → Option Entry) → ℕ → List Segment → Run (Result WalError (List Entry))
unfolding recover_file
recover_all unmarshal snapshot_index [] = done (ok [])
recover_all unmarshal snapshot_index (seg ∷ segs) =
    recover_file unmarshal (suc (length seg.content)) snapshot_index seg.content >>= λ r. elim r [
      | err e ↦ done (err e)
      | ok entries ↦ recover_all unmarshal snapshot_index segs >>= λ more. elim more [
        | err e ↦ done (err e)
        | ok later ↦ done (ok (entries ++ later))
      ]
    ]

-- `Recover`
unfoldable pub recover_wal :
    (List ℕ → Option Entry) → SegmentedWal → ℕ → Run (Result WalError (List Entry))
unfolding recover_all
recover_wal unmarshal sw snapshot_index =
    recover_all unmarshal snapshot_index (sw.segments ++ sw.active ∷ [])

-- The end of `Truncate`, where the active segment has no entry behind `up_to`.
unfoldable pub renewed : SegmentedWal → ℕ → SegmentedWal
unfolding new_active
renewed sw up_to = record sw { active = new_active (up_to + 1); next_index = up_to + 1 }

-- `Truncate`
unfoldable pub truncate : SegmentedWal → ℕ → Run (Result WalError SegmentedWal)
unfolding scan_last_index renewed
truncate sw up_to =
    let kept = record sw { segments = select (λ seg. ltb up_to seg.end_index) sw.segments } in
    if leb sw.active.start_index up_to
    then (scan_last_index sw.active >>= λ r. elim r [
      | err e ↦ done (err e)
      | ok last ↦ done (ok (if leb last up_to then renewed kept up_to else kept))
    ])
    else done (ok kept)
