-- ===== src/Wal/Files.antt =====
-- internal/cluster/raft_segment.go: the file of a segment as the entries that were written to it, and
-- what the loops of Recover and scanLastIndex find in it.
use mathlib.Core.List.{append_assoc}
use cue.Base.{
  drop-length_append, ℕ, zero, suc, ◌+◌, ◌^◌, ◌≤◌, ◌<◌, ◌≡◌, refl, sym, ◌∙◌, List, [], ◌∷◌, ◌++◌,
  Option, some, map, All, select, if◌then◌else◌, length, drop, ltb, ok, done, arith, length-append,
}
use cue.Storage.{Entry, BufferedEntry}
use cue.Wal.{entry_bytes, read_entry, read_header, read_full, scan_from, recover_file}
use cue.Wal.Bytes.{read_entry-entry_bytes, read_header-entry_bytes, length-entry_bytes}

-- An entry with its data, as `proto.Marshal` gives it.
abbrev pub Written : Type 0
Written = Entry × List ℕ

-- The data is that of the entry, and the numbers of its header are 64-bit numbers.
abbrev pub Readable : (List ℕ → Option Entry) → Written → Type 0
Readable unmarshal w =
    (unmarshal w.1 ≡ some w.0) × ((w.0.index < 256 ^ 8) × (16 + length w.1 < 256 ^ 8))

abbrev pub written_bytes : Written → List ℕ
written_bytes w = entry_bytes w.0.index w.1

-- An entry as it is handed to the log.
abbrev pub buffered_entry : Written → BufferedEntry
buffered_entry w = record { index = w.0.index; bytes = written_bytes w }

-- The bytes of a file to which entries were written.
abbrev pub file_of : List Written → List ℕ
file_of [] = []
file_of (w ∷ ws) = written_bytes w ++ file_of ws

abbrev pub entries_of : List Written → List Entry
entries_of = map (λ w. w.0)

-- The entries behind a snapshot.
abbrev pub newer : ℕ → List Entry → List Entry
newer snapshot_index = select (λ e. ltb snapshot_index e.index)

-- The index of the last entry.
abbrev pub last_of : ℕ → List Written → ℕ
last_of last [] = last
last_of last (w ∷ ws) = last_of w.0.index ws

pub file_of-append : (ws vs : List Written) → file_of (ws ++ vs) ≡ file_of ws ++ file_of vs
file_of-append [] vs = refl
file_of-append (w ∷ ws) vs =
    rw (file_of-append ws vs) (sym (append_assoc (written_bytes w) (file_of ws) (file_of vs)))

-- A file has a byte for each entry, so that the loops have enough rounds.
pub length-file_of : (ws : List Written) → length ws ≤ length (file_of ws)
length-file_of [] = omega arith
length-file_of (w ∷ ws) = omega (
  arith,
  length-append (written_bytes w) (file_of ws),
  length-entry_bytes w.0.index w.1,
  length-file_of ws,
)

recover_file-step :
    (unmarshal : List ℕ → Option Entry) (fuel snapshot_index : ℕ) (bytes rest : List ℕ) (e : Entry)
    (entries : List Entry)
    → read_entry unmarshal bytes ≡ done (ok (e, rest))
    → recover_file unmarshal fuel snapshot_index rest ≡ done (ok entries)
    → recover_file unmarshal (suc fuel) snapshot_index bytes
      ≡ done (ok (if ltb snapshot_index e.index then e ∷ entries else entries))
unfolding recover_file
recover_file-step unmarshal fuel snapshot_index bytes rest e entries h k =
    rw (recover_file, h, k) refl

-- The loop of `Recover` over a file hands on the entries behind the snapshot, in order.
pub recover_file-file_of :
    (unmarshal : List ℕ → Option Entry) (snapshot_index fuel : ℕ) (ws : List Written)
    → All (Readable unmarshal) ws
    → length ws < fuel
    → recover_file unmarshal fuel snapshot_index (file_of ws)
      ≡ done (ok (newer snapshot_index (entries_of ws)))
unfolding recover_file read_entry read_header read_full
recover_file-file_of unmarshal snapshot_index zero ws rs h = absurd (omega (arith, h))
recover_file-file_of unmarshal snapshot_index (suc fuel) [] rs h = refl
recover_file-file_of unmarshal snapshot_index (suc fuel) (w ∷ ws) (r, rs) h =
    recover_file-step unmarshal fuel snapshot_index (file_of (w ∷ ws)) (file_of ws) w.0
      (newer snapshot_index (entries_of ws))
      (read_entry-entry_bytes unmarshal w.0 w.1 (file_of ws) r.0 r.1.0 r.1.1)
      (recover_file-file_of unmarshal snapshot_index fuel ws rs (omega (arith, h)))

scan_from-step :
    (fuel : ℕ) (content rest : List ℕ) (pos last index total : ℕ)
    → read_header (drop pos content) ≡ ok (record { index = index; total = total }, rest)
    → scan_from (suc fuel) content pos last ≡ scan_from fuel content (pos + total) index
unfolding scan_from
scan_from-step fuel content rest pos last index total h = rw (scan_from, h) refl

-- The loop of `scanLastIndex`, behind the bytes it went over.
pub scan_from-file_of :
    (unmarshal : List ℕ → Option Entry) (fuel last : ℕ) (xs : List ℕ) (ws : List Written)
    → All (Readable unmarshal) ws
    → length ws < fuel
    → scan_from fuel (xs ++ file_of ws) (length xs) last ≡ done (ok (last_of last ws))
unfolding scan_from read_header read_full
scan_from-file_of unmarshal zero last xs ws rs h = absurd (omega (arith, h))
scan_from-file_of unmarshal (suc fuel) last xs [] rs h =
    rw (scan_from, drop-length_append xs []) refl
scan_from-file_of unmarshal (suc fuel) last xs (w ∷ ws) (r, rs) h =
    let here =
      scan_from-step fuel (xs ++ file_of (w ∷ ws)) (w.1 ++ file_of ws) (length xs) last w.0.index
        (16 + length w.1)
        (rw (drop-length_append xs (file_of (w ∷ ws)))
          (read_header-entry_bytes w.0.index w.1 (file_of ws) r.1.0 r.1.1)) in
    let after =
      scan_from-file_of unmarshal fuel w.0.index (xs ++ written_bytes w) ws rs (omega (arith, h)) in
    let moved : length (xs ++ written_bytes w) ≡ length xs + (16 + length w.1) =
      omega (arith, length-append xs (written_bytes w), length-entry_bytes w.0.index w.1) in
    here ∙ rw (sym moved, sym (append_assoc xs (written_bytes w) (file_of ws))) after
