-- ===== src/Wal/Recovery.antt =====
-- internal/cluster/raft_segment.go: the entries that the files of a log hold, and what Recover hands on.
use mathlib.Core.List.{append_assoc, append-nil, map-append}
use cue.Base.{
  ℕ, suc, ◌<◌, ◌≡◌, refl, sym, ◌∙◌, List, [], ◌∷◌, ◌++◌, Option, All, length, ok, done, arith,
}
use cue.Storage.{Entry}
use cue.Wal.{Segment, SegmentedWal, recover_file, recover_all, recover_wal}
use cue.Wal.Files.{
  Written, Readable, file_of, entries_of, newer, length-file_of, recover_file-file_of,
}

-- A segment holds these entries, the greatest index it may hold being below `bound`.
abbrev pub Holds : (List ℕ → Option Entry) → ℕ → Segment → List Written → Type 0
Holds unmarshal bound seg ws =
    (seg.content ≡ file_of ws) × (All (Readable unmarshal) ws × All (λ w. w.0.index < bound) ws)

-- Sealed segments hold these entries, none behind the end of its segment.
abbrev pub Sealed : (List ℕ → Option Entry) → List Segment → List (List Written) → Type 0
Sealed unmarshal [] [] = Unit
Sealed unmarshal [] (ws ∷ wss) = ⊥
Sealed unmarshal (seg ∷ segs) [] = ⊥
Sealed unmarshal (seg ∷ segs) (ws ∷ wss) =
    Holds unmarshal (suc seg.end_index) seg ws × Sealed unmarshal segs wss

-- The log holds the entries `wss` in its sealed segments and `ws` in the active one.
abbrev pub Contains :
    (List ℕ → Option Entry) → SegmentedWal → List (List Written) → List Written → Type 0
Contains unmarshal sw wss ws =
    Sealed unmarshal sw.segments wss × Holds unmarshal sw.next_index sw.active ws

abbrev pub joined : List (List Written) → List Written
joined [] = []
joined (ws ∷ wss) = ws ++ joined wss

pub joined-append :
    (wss : List (List Written)) (ws : List Written) → joined (wss ++ ws ∷ []) ≡ joined wss ++ ws
joined-append [] ws = append-nil ws
joined-append (vs ∷ wss) ws = rw (joined-append wss ws) (sym (append_assoc vs (joined wss) ws))

newer-append :
    (snapshot_index : ℕ) (es fs : List Entry)
    → newer snapshot_index (es ++ fs) ≡ newer snapshot_index es ++ newer snapshot_index fs
newer-append snapshot_index [] fs = refl
newer-append snapshot_index (e ∷ es) fs = ground (arith, newer-append snapshot_index es fs)

pub newer-log_append :
    (snapshot_index : ℕ) (ws vs : List Written)
    → newer snapshot_index (entries_of (ws ++ vs))
      ≡ newer snapshot_index (entries_of ws) ++ newer snapshot_index (entries_of vs)
newer-log_append snapshot_index ws vs =
    rw (map-append (λ (w : Written). w.0) ws vs)
      (newer-append snapshot_index (entries_of ws) (entries_of vs))

pub recover_file-Holds :
    (unmarshal : List ℕ → Option Entry) (bound snapshot_index : ℕ) (seg : Segment)
    (ws : List Written)
    → Holds unmarshal bound seg ws
    → recover_file unmarshal (suc (length seg.content)) snapshot_index seg.content
      ≡ done (ok (newer snapshot_index (entries_of ws)))
recover_file-Holds unmarshal bound snapshot_index seg ws (h, (rs, _)) = rw h (
    recover_file-file_of unmarshal snapshot_index (suc (length (file_of ws))) ws rs
      (omega (arith, length-file_of ws)))

recover_all-step :
    (unmarshal : List ℕ → Option Entry) (snapshot_index : ℕ) (seg : Segment) (segs : List Segment)
    (es fs : List Entry)
    → recover_file unmarshal (suc (length seg.content)) snapshot_index seg.content ≡ done (ok es)
    → recover_all unmarshal snapshot_index segs ≡ done (ok fs)
    → recover_all unmarshal snapshot_index (seg ∷ segs) ≡ done (ok (es ++ fs))
unfolding recover_all
recover_all-step unmarshal snapshot_index seg segs es fs h k = rw (recover_all, h, k) refl

recover_all-Sealed :
    (unmarshal : List ℕ → Option Entry) (bound snapshot_index : ℕ) (segs : List Segment)
    (wss : List (List Written)) (active : Segment) (ws : List Written)
    → Sealed unmarshal segs wss
    → Holds unmarshal bound active ws
    → recover_all unmarshal snapshot_index (segs ++ active ∷ [])
      ≡ done (ok (newer snapshot_index (entries_of (joined wss ++ ws))))
unfolding recover_all
recover_all-Sealed unmarshal bound snapshot_index [] [] active ws s h =
    recover_all-step unmarshal snapshot_index active [] (newer snapshot_index (entries_of ws)) []
      (recover_file-Holds unmarshal bound snapshot_index active ws h) refl
    ∙ rw (append-nil (newer snapshot_index (entries_of ws))) refl
recover_all-Sealed unmarshal bound snapshot_index [] (vs ∷ wss) active ws s h = absurd s
recover_all-Sealed unmarshal bound snapshot_index (seg ∷ segs) [] active ws s h = absurd s
recover_all-Sealed unmarshal bound snapshot_index (seg ∷ segs) (vs ∷ wss) active ws (s, ss) h =
    recover_all-step unmarshal snapshot_index seg (segs ++ active ∷ [])
      (newer snapshot_index (entries_of vs)) (newer snapshot_index (entries_of (joined wss ++ ws)))
      (recover_file-Holds unmarshal (suc seg.end_index) snapshot_index seg vs s)
      (recover_all-Sealed unmarshal bound snapshot_index segs wss active ws ss h)
    ∙ rw (append_assoc vs (joined wss) ws, newer-log_append snapshot_index vs (joined wss ++ ws))
        refl

-- `Recover` hands on the entries behind the snapshot, segment by segment.
pub recover_wal-Contains :
    (unmarshal : List ℕ → Option Entry) (sw : SegmentedWal) (wss : List (List Written))
    (ws : List Written) (snapshot_index : ℕ)
    → Contains unmarshal sw wss ws
    → recover_wal unmarshal sw snapshot_index
      ≡ done (ok (newer snapshot_index (entries_of (joined wss ++ ws))))
unfolding recover_wal
recover_wal-Contains unmarshal sw wss ws snapshot_index (s, h) =
    recover_all-Sealed unmarshal sw.next_index snapshot_index sw.segments wss sw.active ws s h

-- The files of the log hold these entries, in order.
abbrev pub Logs : (List ℕ → Option Entry) → SegmentedWal → List Written → Type 0
Logs unmarshal sw log =
    (wss : List (List Written)) × (ws : List Written) × (Contains unmarshal sw wss ws
      × (joined wss ++ ws ≡ log))

pub recover_wal-Logs :
    (unmarshal : List ℕ → Option Entry) (sw : SegmentedWal) (log : List Written)
    (snapshot_index : ℕ)
    → Logs unmarshal sw log
    → recover_wal unmarshal sw snapshot_index ≡ done (ok (newer snapshot_index (entries_of log)))
recover_wal-Logs unmarshal sw log snapshot_index (wss, ws, (h, e)) =
    rw (sym e) (recover_wal-Contains unmarshal sw wss ws snapshot_index h)
