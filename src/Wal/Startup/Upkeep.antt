-- ===== src/Wal/Startup/Upkeep.antt =====
-- internal/cluster/raft_segment.go: the marks and the order of the segments, under AppendBatch.
use cue.Base.{
  ℕ, ◌+◌, ◌-◌, ◌≤◌, ◌<◌, ◌≡◌, ◌⊎◌, refl, sym, ap, subst, ◌∙◌, ◌==◌, false, inl, inr, Bool-cases,
  List, [], ◌∷◌, ◌++◌, map, All, length, leb, arith, length-append,
}
use cue.Wal.{
  Segment, SegmentedWal, overwritten, rotate, new_active, write_entry, append_buffered,
  append_batch, new_segmented_wal,
}
use cue.Wal.Files.{Written, written_bytes, buffered_entry}
use cue.Wal.Startup.Reopening.{IsSealed, IsActive, Linked, Chain}

-- The segments are marked as sealed or active, and each starts behind the end of the one before.
abbrev pub Tidy : SegmentedWal → Type 0
Tidy sw = All IsSealed sw.segments × (IsActive sw.active × Chain (sw.segments ++ sw.active ∷ []))

-- What comes behind a segment: the last one sealed, and a new one.
Linked-last :
    (seg : Segment) (segs : List Segment) (last last' : Segment)
    → last.start_index ≡ last'.start_index
    → Linked seg (segs ++ last ∷ [])
    → Linked seg (segs ++ last' ∷ [])
Linked-last seg [] last last' k (l, (e, _)) = (omega (arith, k, l), (e ∙ k, tt))
Linked-last seg (t ∷ ts) last last' k (l, (e, h)) = (l, (e, Linked-last t ts last last' k h))

-- Of the last segment only the start counts.
Chain-last :
    (segs : List Segment) (last last' : Segment)
    → last.start_index ≡ last'.start_index
    → Chain (segs ++ last ∷ [])
    → Chain (segs ++ last' ∷ [])
Chain-last [] last last' k h = tt
Chain-last (seg ∷ segs) last last' k h = Linked-last seg segs last last' k h

Linked-next :
    (seg : Segment) (segs : List Segment) (last next : Segment)
    → Linked seg (segs ++ last ∷ [])
    → last.start_index < next.start_index
    → last.end_index + 1 ≡ next.start_index
    → Linked seg ((segs ++ last ∷ []) ++ next ∷ [])
Linked-next seg [] last next (l, (e, _)) h k = (l, (e, (h, (k, tt))))
Linked-next seg (t ∷ ts) last next (l, (e, r)) h k = (l, (e, Linked-next t ts last next r h k))

Chain-next :
    (segs : List Segment) (last next : Segment)
    → Chain (segs ++ last ∷ [])
    → last.start_index < next.start_index
    → last.end_index + 1 ≡ next.start_index
    → Chain ((segs ++ last ∷ []) ++ next ∷ [])
Chain-next [] last next c h k = (h, (k, tt))
Chain-next (seg ∷ segs) last next c h k = Linked-next seg segs last next c h k

All-append {ℓ κ} :
    {A : Type ℓ} (P : A → Type κ) (xs : List A) (y : A) → All P xs → P y → All P (xs ++ y ∷ [])
All-append P [] y h p = (p, tt)
All-append P (x ∷ xs) y (h, hs) p = (h, All-append P xs y hs p)

Linked-below :
    (seg : Segment) (segs : List Segment) (last : Segment)
    → Linked seg (segs ++ last ∷ [])
    → seg.start_index < last.start_index
Linked-below seg [] last (l, h) = l
Linked-below seg (t ∷ ts) last (l, (e, h)) = omega (arith, l, Linked-below t ts last h)

Chain-tail : (seg : Segment) (segs : List Segment) → Linked seg segs → Chain segs
Chain-tail seg [] h = tt
Chain-tail seg (t ∷ ts) (l, (e, h)) = h

-- In a chain no sealed segment has the path of the last one.
overwritten-Chain :
    (old : Segment) (segs : List Segment) → Chain (segs ++ old ∷ []) → overwritten old segs ≡ segs
unfolding overwritten
overwritten-Chain old [] c = refl
overwritten-Chain old (seg ∷ segs) c =
    let below = Linked-below seg segs old c in
    let other : (seg.start_index == old.start_index) ≡ false = ground (arith, below) in
    rw other (ap (λ l. seg ∷ l) (overwritten-Chain old segs (Chain-tail seg (segs ++ old ∷ []) c)))

-- A rotation that replaces no file.
abbrev pub added_segment : SegmentedWal → SegmentedWal
added_segment sw = record sw {
  segments = sw.segments ++ record sw.active { end_index = sw.next_index - 1; active = false } ∷ [];
  active = new_active sw.next_index;
}

pub rotate-Chain :
    (sw : SegmentedWal) → Chain (sw.segments ++ sw.active ∷ []) → rotate sw ≡ added_segment sw
unfolding rotate
rotate-Chain sw c =
    let old = record sw.active { end_index = sw.next_index - 1; active = false } in
    ap (λ l. record sw { segments = l ++ old ∷ []; active = new_active sw.next_index })
      (overwritten-Chain old sw.segments (Chain-last sw.segments sw.active old refl c))

pub rotate-Tidy :
    (sw : SegmentedWal) → Tidy sw → sw.active.start_index < sw.next_index → Tidy (rotate sw)
unfolding new_active
rotate-Tidy sw (ss, ((a, (n, e)), c)) h =
    let old = record sw.active { end_index = sw.next_index - 1; active = false } in
    subst Tidy (sym (rotate-Chain sw c)) (
      All-append IsSealed sw.segments old ss (refl, n),
      (
        (refl, (refl, refl)),
        Chain-next sw.segments old (new_active sw.next_index)
            (Chain-last sw.segments sw.active old refl c) h (omega arith),
      ),
    )

Linked-prefix :
    (seg : Segment) (segs rest : List Segment) → Linked seg (segs ++ rest) → Linked seg segs
Linked-prefix seg [] rest h = tt
Linked-prefix seg (t ∷ ts) rest (l, (e, h)) = (l, (e, Linked-prefix t ts rest h))

pub Chain-prefix : (segs rest : List Segment) → Chain (segs ++ rest) → Chain segs
Chain-prefix [] rest h = tt
Chain-prefix (seg ∷ segs) rest h = Linked-prefix seg segs rest h

-- What AppendBatch keeps: an active segment with entries starts below the next index, and entries from
-- `from` on are new to the log.
abbrev pub Ready : ℕ → SegmentedWal → Type 0
Ready from sw =
    Tidy sw
    × ((0 < sw.segment_size)
        × (((sw.active.size ≡ 0) ⊎ (sw.active.start_index < sw.next_index))
            × ((sw.active.start_index ≤ from) × (sw.next_index ≤ from))))

-- The indices grow from `from` on.
abbrev pub Follows : ℕ → List Written → Type 0
Follows from [] = Unit
Follows from (w ∷ ws) = (from ≤ w.0.index) × Follows (w.0.index + 1) ws

-- The bound on the new indices, behind a batch.
abbrev pub next_new : ℕ → List Written → ℕ
next_new from [] = from
next_new from (w ∷ ws) = next_new (w.0.index + 1) ws

rotate-Ready :
    (from : ℕ) (sw : SegmentedWal)
    → Ready from sw
    → sw.segment_size ≤ sw.active.size
    → Ready from (rotate sw)
unfolding new_active
rotate-Ready from sw (t, (p, (inl z, _))) h = absurd (omega (arith, p, z, h))
rotate-Ready from sw (t, (p, (inr l, (_, n)))) h =
    subst (Ready from) (sym (rotate-Chain sw t.1.1))
      (subst Tidy (rotate-Chain sw t.1.1) (rotate-Tidy sw t l), (p, (inl refl, (n, n))))

write_entry-Ready :
    (from : ℕ) (sw : SegmentedWal) (w : Written)
    → Ready from sw
    → from ≤ w.0.index
    → Ready (w.0.index + 1) (write_entry sw (buffered_entry w))
unfolding write_entry
write_entry-Ready from sw w ((ss, ((a, (n, e)), c)), (p, (_, (f, g)))) h =
    let size : sw.active.size + length (written_bytes w)
        ≡ length (sw.active.content ++ written_bytes w) =
      omega (arith, n, length-append sw.active.content (written_bytes w)) in
    (
      (
        ss,
        (
          (a, (size, e)),
          Chain-last sw.segments sw.active (write_entry sw (buffered_entry w)).active refl c,
        ),
      ),
      (p, (inr (ground (arith, f, g, h)), (omega (arith, f, h), ground (arith, g, h)))),
    )

pub append_buffered-Ready :
    (from : ℕ) (sw : SegmentedWal) (w : Written)
    → Ready from sw
    → from ≤ w.0.index
    → Ready (w.0.index + 1) (append_buffered sw (buffered_entry w))
unfolding append_buffered
append_buffered-Ready from sw w r h = elim (Bool-cases (leb sw.segment_size sw.active.size)) [
  | inl t ↦
      rw t (write_entry-Ready from (rotate sw) w (rotate-Ready from sw r (ground (arith, t))) h)
  | inr f ↦ rw f (write_entry-Ready from sw w r h)
]

-- Let a log be marked and linked as the code keeps it, and let a batch have growing indices, new to the
-- log. AppendBatch, with all its rotations, keeps the log so: each segment starts behind the end of the
-- one before, the sizes are those of the files, only the last segment is active, and entries behind
-- the batch are new again.
pub append_batch-Ready :
    (from : ℕ) (sw : SegmentedWal) (batch : List Written)
    → Ready from sw
    → Follows from batch
    → Ready (next_new from batch) (append_batch sw (map buffered_entry batch))
unfolding append_batch
append_batch-Ready from sw [] r h = r
append_batch-Ready from sw (w ∷ batch) r (h, hs) =
    append_batch-Ready (w.0.index + 1) (append_buffered sw (buffered_entry w)) batch
      (append_buffered-Ready from sw w r h) hs

pub new_segmented_wal-Ready : (size : ℕ) → Ready 1 (new_segmented_wal size)
unfolding new_segmented_wal
new_segmented_wal-Ready size =
    ((tt, ((refl, (refl, refl)), tt)), (ground arith, (inl refl, (omega arith, omega arith))))
