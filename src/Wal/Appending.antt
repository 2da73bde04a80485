-- ===== src/Wal/Appending.antt =====
-- internal/cluster/raft_segment.go: AppendBatch, with its rotation, and NewSegmentedWal on an empty directory.
use mathlib.Core.List.{append_assoc, append-nil, map-append}
use cue.Base.{
  ℕ, suc, ◌+◌, ◌-◌, ◌^◌, ◌≤◌, ◌<◌, ◌≡◌, refl, sym, ap, subst, ◌∙◌, true, false, List, [], ◌∷◌, ◌++◌,
  Option, none, some, map, All, if◌then◌else◌, length, ltb, leb, ok, done, arith,
}
use cue.Storage.{Entry, BufferedEntry}
use cue.Wal.{
  Segment, SegmentedWal, new_active, rotate, write_entry, append_buffered, append_batch,
  new_segmented_wal, encode_buffered_entry, recover_wal,
}
use cue.Wal.Bytes.{length-entry_bytes}
use cue.Wal.Startup.Reopening.{Chain}
use cue.Wal.Startup.Upkeep.{Ready, Follows, rotate-Chain, append_buffered-Ready}
use cue.Wal.Files.{
  buffered_entry, Written, Readable, file_of, file_of-append, written_bytes, entries_of, newer,
}
use cue.Wal.Recovery.{Holds, Sealed, Contains, joined, joined-append, Logs, recover_wal-Logs}

pub new_segmented_wal-Contains :
    (unmarshal : List ℕ → Option Entry) (size : ℕ)
    → Contains unmarshal (new_segmented_wal size) [] []
unfolding new_segmented_wal
new_segmented_wal-Contains unmarshal size = (tt, (refl, (tt, tt)))

All-append {ℓ κ} :
    {A : Type ℓ} (P : A → Type κ) (xs : List A) (y : A) → All P xs → P y → All P (xs ++ y ∷ [])
All-append P [] y h p = (p, tt)
All-append P (x ∷ xs) y (h, hs) p = (h, All-append P xs y hs p)

All-below :
    (ws : List Written) (m n : ℕ)
    → m ≤ n
    → All (λ w. w.0.index < m) ws
    → All (λ w. w.0.index < n) ws
All-below [] m n h hs = tt
All-below (w ∷ ws) m n h (k, hs) = (omega (arith, h, k), All-below ws m n h hs)

Sealed-append :
    (unmarshal : List ℕ → Option Entry) (segs : List Segment) (wss : List (List Written))
    (seg : Segment) (ws : List Written)
    → Sealed unmarshal segs wss
    → Holds unmarshal (suc seg.end_index) seg ws
    → Sealed unmarshal (segs ++ seg ∷ []) (wss ++ ws ∷ [])
Sealed-append unmarshal [] [] seg ws s h = (h, tt)
Sealed-append unmarshal [] (vs ∷ wss) seg ws s h = absurd s
Sealed-append unmarshal (t ∷ segs) [] seg ws s h = absurd s
Sealed-append unmarshal (t ∷ segs) (vs ∷ wss) seg ws (k, s) h =
    (k, Sealed-append unmarshal segs wss seg ws s h)

pub rotate-Contains :
    (unmarshal : List ℕ → Option Entry) (sw : SegmentedWal) (wss : List (List Written))
    (ws : List Written)
    → Contains unmarshal sw wss ws
    → Chain (sw.segments ++ sw.active ∷ [])
    → Contains unmarshal (rotate sw) (wss ++ ws ∷ []) []
unfolding new_active
rotate-Contains unmarshal sw wss ws (s, (c, (rs, b))) l = rw (rotate-Chain sw l) (
  Sealed-append unmarshal sw.segments wss
      (record sw.active { end_index = sw.next_index - 1; active = false }) ws s
      (c, (rs, All-below ws sw.next_index (suc (sw.next_index - 1)) (omega arith) b)),
  (refl, (tt, tt)),
)

write_entry-Contains :
    (unmarshal : List ℕ → Option Entry) (sw : SegmentedWal) (wss : List (List Written))
    (ws : List Written) (w : Written)
    → Contains unmarshal sw wss ws
    → Readable unmarshal w
    → Contains unmarshal (write_entry sw (buffered_entry w)) wss (ws ++ w ∷ [])
unfolding write_entry
write_entry-Contains unmarshal sw wss ws w (s, (c, (rs, b))) r =
    let next = if ltb sw.next_index (w.0.index + 1) then w.0.index + 1 else sw.next_index in
    let content : sw.active.content ++ written_bytes w ≡ file_of (ws ++ w ∷ []) =
      rw (c, file_of-append ws (w ∷ []), append-nil (written_bytes w)) refl in
    let bound : All (λ v. v.0.index < next) (ws ++ w ∷ []) =
      All-append (λ v. v.0.index < next) ws w (All-below ws sw.next_index next (ground arith) b)
        (ground arith) in
    (s, (content, (All-append (Readable unmarshal) ws w rs r, bound)))

pub rotate-Logs :
    (unmarshal : List ℕ → Option Entry) (sw : SegmentedWal) (log : List Written)
    → Logs unmarshal sw log
    → Chain (sw.segments ++ sw.active ∷ [])
    → Logs unmarshal (rotate sw) log
rotate-Logs unmarshal sw log (wss, ws, (h, e)) c = (
  wss ++ ws ∷ [],
  [],
  (
    rotate-Contains unmarshal sw wss ws h c,
    append-nil (joined (wss ++ ws ∷ [])) ∙ (joined-append wss ws ∙ e),
  ),
)

write_entry-Logs :
    (unmarshal : List ℕ → Option Entry) (sw : SegmentedWal) (log : List Written) (w : Written)
    → Logs unmarshal sw log
    → Readable unmarshal w
    → Logs unmarshal (write_entry sw (buffered_entry w)) (log ++ w ∷ [])
write_entry-Logs unmarshal sw log w (wss, ws, (h, e)) r = (
  wss,
  ws ++ w ∷ [],
  (
    write_entry-Contains unmarshal sw wss ws w h r,
    sym (append_assoc (joined wss) ws (w ∷ [])) ∙ ap (λ l. l ++ w ∷ []) e,
  ),
)

append_buffered-Logs :
    (unmarshal : List ℕ → Option Entry) (sw : SegmentedWal) (log : List Written) (w : Written)
    → Logs unmarshal sw log
    → Chain (sw.segments ++ sw.active ∷ [])
    → Readable unmarshal w
    → Logs unmarshal (append_buffered sw (buffered_entry w)) (log ++ w ∷ [])
unfolding append_buffered
append_buffered-Logs unmarshal sw log w h c r =
    elim (leb sw.segment_size sw.active.size)
      as (λ full.
        Logs unmarshal (write_entry (if full then rotate sw else sw) (buffered_entry w))
          (log ++ w ∷ [])) [
            | true ↦
                write_entry-Logs unmarshal (rotate sw) log w (rotate-Logs unmarshal sw log h c) r
            | false ↦ write_entry-Logs unmarshal sw log w h r
          ]

pub append_batch-Logs :
    (unmarshal : List ℕ → Option Entry) (from : ℕ) (sw : SegmentedWal) (log batch : List Written)
    → Logs unmarshal sw log
    → Ready from sw
    → Follows from batch
    → All (Readable unmarshal) batch
    → Logs unmarshal (append_batch sw (map buffered_entry batch)) (log ++ batch)
unfolding append_batch
append_batch-Logs unmarshal from sw log [] h t g rs = rw (append-nil log) h
append_batch-Logs unmarshal from sw log (w ∷ batch) h t (g, gs) (r, rs) =
    rw (sym (append_assoc log (w ∷ []) batch)) (
      append_batch-Logs unmarshal (w.0.index + 1) (append_buffered sw (buffered_entry w))
        (log ++ w ∷ []) batch (append_buffered-Logs unmarshal sw log w h t.0.1.1 r)
        (append_buffered-Ready from sw w t g) gs rs)

-- The indices of some entries grow from `from` on.
abbrev pub Grows : ℕ → List Entry → Type 0
Grows from [] = Unit
Grows from (e ∷ es) = (from ≤ e.index) × Grows (e.index + 1) es

Grows-Follows : (from : ℕ) (ws : List Written) → Grows from (entries_of ws) → Follows from ws
Grows-Follows from [] g = tt
Grows-Follows from (w ∷ ws) (g, gs) = (g, Grows-Follows (w.0.index + 1) ws gs)

-- The batch is what `encodeBufferedEntry` makes of the entries, and its numbers are 64-bit numbers.
abbrev pub Encoded : (Entry → Option (List ℕ)) → List Entry → List BufferedEntry → Type 0
Encoded marshal [] [] = Unit
Encoded marshal [] (be ∷ bes) = ⊥
Encoded marshal (e ∷ es) [] = ⊥
Encoded marshal (e ∷ es) (be ∷ bes) =
    ((encode_buffered_entry marshal e ≡ some be)
      × ((be.index < 256 ^ 8) × (length be.bytes < 256 ^ 8)))
    × Encoded marshal es bes

-- What is read back is the entry that was encoded.
abbrev pub Decodes : (Entry → Option (List ℕ)) → (List ℕ → Option Entry) → Type 0
Decodes marshal unmarshal = (e : Entry) (d : List ℕ) → marshal e ≡ some d → unmarshal d ≡ some e

encode_buffered_entry-cases :
    (marshal : Entry → Option (List ℕ)) (e : Entry) (be : BufferedEntry)
    → encode_buffered_entry marshal e ≡ some be
    → (d : List ℕ) × ((marshal e ≡ some d) × (buffered_entry (e, d) ≡ be))
unfolding encode_buffered_entry
encode_buffered_entry-cases marshal e be =
    elim (marshal e)
      as (λ o.
        elim o [ none ↦ none | some d ↦ some (buffered_entry (e, d)) ] ≡ some be
        → (d : List ℕ) × ((o ≡ some d) × (buffered_entry (e, d) ≡ be))) [
          | none ↦ λ h. absurd cc
          | some d ↦ λ h. (d, (refl, cc))
        ]

-- The entries of a batch with their data.
written_of :
    (marshal : Entry → Option (List ℕ)) (unmarshal : List ℕ → Option Entry) (es : List Entry)
    (bes : List BufferedEntry)
    → Decodes marshal unmarshal
    → Encoded marshal es bes
    → (ws : List Written) × (All (Readable unmarshal) ws
        × ((map buffered_entry ws ≡ bes) × (entries_of ws ≡ es)))
written_of marshal unmarshal [] [] h k = ([], (tt, (refl, refl)))
written_of marshal unmarshal [] (be ∷ bes) h k = absurd k
written_of marshal unmarshal (e ∷ es) [] h k = absurd k
written_of marshal unmarshal (e ∷ es) (be ∷ bes) h ((k, (i, n)), ks) =
    let (d, (m, b)) = encode_buffered_entry-cases marshal e be k in
    let (ws, (rs, (bs, eq))) = written_of marshal unmarshal es bes h ks in
    let index : e.index < 256 ^ 8 = subst (λ x. x.index < 256 ^ 8) (sym b) i in
    let size : length (written_bytes (e, d)) < 256 ^ 8 =
      subst (λ x. length x.bytes < 256 ^ 8) (sym b) n in
    let fits : 16 + length d < 256 ^ 8 = omega (arith, size, length-entry_bytes e.index d) in
    ((e, d) ∷ ws, (((h e d m, (index, fits)), rs), (rw (b, bs) refl, rw eq refl)))

append_batch-Encoded :
    (marshal : Entry → Option (List ℕ)) (unmarshal : List ℕ → Option Entry) (from : ℕ)
    (sw : SegmentedWal) (log : List Written) (es : List Entry) (bes : List BufferedEntry)
    → Decodes marshal unmarshal
    → Logs unmarshal sw log
    → Ready from sw
    → Grows from es
    → Encoded marshal es bes
    → (ws : List Written) × (Logs unmarshal (append_batch sw bes) (log ++ ws)
        × (entries_of ws ≡ es))
append_batch-Encoded marshal unmarshal from sw log es bes h l t g k =
    let (ws, (rs, (bs, eq))) = written_of marshal unmarshal es bes h k in
    (
      ws,
      (
        subst (λ b. Logs unmarshal (append_batch sw b) (log ++ ws)) bs
            (append_batch-Logs unmarshal from sw log ws l t
              (Grows-Follows from ws (subst (Grows from) (sym eq) g)) rs),
        eq,
      ),
    )

-- Let `unmarshal` read back what `marshal` made, let the files of the log hold some entries, with its
-- segments marked and linked as the code keeps them, and let a batch be what `encodeBufferedEntry` made
-- of entries whose indices grow and are new to the log, with indices and sizes below 2^64. After
-- AppendBatch, with all its rotations, Recover returns: it hands on the entries from before and then
-- the entries of the batch, in order, less those that the snapshot covers.
pub recover_wal-append_batch :
    (marshal : Entry → Option (List ℕ)) (unmarshal : List ℕ → Option Entry) (from : ℕ)
    (sw : SegmentedWal) (log : List Written) (es : List Entry) (bes : List BufferedEntry)
    (snapshot_index : ℕ)
    → Decodes marshal unmarshal
    → Logs unmarshal sw log
    → Ready from sw
    → Grows from es
    → Encoded marshal es bes
    → recover_wal unmarshal (append_batch sw bes) snapshot_index
      ≡ done (ok (newer snapshot_index (entries_of log ++ es)))
recover_wal-append_batch marshal unmarshal from sw log es bes snapshot_index h l t g k =
    let (ws, (l', eq)) = append_batch-Encoded marshal unmarshal from sw log es bes h l t g k in
    recover_wal-Logs unmarshal (append_batch sw bes) (log ++ ws) snapshot_index l'
    ∙ rw (map-append (λ w. w.0) log ws, eq) refl
