-- ===== src/Wal/Truncation.antt =====
-- internal/cluster/raft_segment.go: Truncate, and what Recover hands on after it.
use mathlib.Core.List.{append-nil}
use cue.Base.{
  ℕ, suc, ◌≤◌, ◌<◌, ◌≡◌, refl, sym, ap, subst, ◌∙◌, ◌&&◌, Bool, true, false, inl, inr, Bool-cases,
  List, [], ◌∷◌, ◌++◌, Option, All, select, if◌then◌else◌, length, ltb, leb, ok, done, arith,
}
use cue.Storage.{Entry}
use cue.Wal.{Segment, SegmentedWal, truncate, renewed, scan_last_index, recover_wal}
use cue.Wal.Files.{Written, file_of, entries_of, newer, last_of, length-file_of, scan_from-file_of}
use cue.Wal.Recovery.{
  Holds, Sealed, Contains, joined, Logs, newer-log_append, recover_wal-Logs, recover_wal-Contains,
}

-- Every entry has a greater index than the one before it.
abbrev pub Ascending : List Written → Type 0
Ascending [] = Unit
Ascending (w ∷ ws) = All (λ v. w.0.index < v.0.index) ws × Ascending ws

pub Ascending-append : (vs ws : List Written) → Ascending (vs ++ ws) → Ascending ws
Ascending-append [] ws h = h
Ascending-append (v ∷ vs) ws (_, h) = Ascending-append vs ws h

last_of-greatest :
    (last : ℕ) (ws : List Written)
    → Ascending ws
    → All (λ v. last < v.0.index) ws
    → (last ≤ last_of last ws) × All (λ v. v.0.index ≤ last_of last ws) ws
last_of-greatest last [] h a = (omega arith, tt)
last_of-greatest last (w ∷ ws) (b, h) (l, a) =
    let (le, more) = last_of-greatest w.0.index ws h b in (omega (arith, l, le), (le, more))

All-below :
    (ws : List Written) (m n : ℕ)
    → m ≤ n
    → All (λ w. w.0.index ≤ m) ws
    → All (λ w. w.0.index ≤ n) ws
All-below [] m n h hs = tt
All-below (w ∷ ws) m n h (k, hs) = (omega (arith, h, k), All-below ws m n h hs)

-- The last index of the active segment bounds all its indices.
pub last_of-Ascending :
    (ws : List Written) (up_to : ℕ)
    → Ascending ws
    → last_of 0 ws ≤ up_to
    → All (λ w. w.0.index ≤ up_to) ws
last_of-Ascending [] up_to h l = tt
last_of-Ascending (w ∷ ws) up_to (a, h) l =
    let (le, more) = last_of-greatest w.0.index ws h a in
    (omega (arith, le, l), All-below ws (last_of w.0.index ws) up_to l more)

newer-none :
    (ws : List Written) (up_to snapshot_index : ℕ)
    → up_to ≤ snapshot_index
    → All (λ w. w.0.index ≤ up_to) ws
    → newer snapshot_index (entries_of ws) ≡ []
newer-none [] up_to snapshot_index h a = refl
newer-none (w ∷ ws) up_to snapshot_index h (l, a) =
    ground (arith, newer-none ws up_to snapshot_index h a)

pub scan_last_index-Holds :
    (unmarshal : List ℕ → Option Entry) (bound : ℕ) (seg : Segment) (ws : List Written)
    → Holds unmarshal bound seg ws
    → scan_last_index seg ≡ done (ok (last_of 0 ws))
unfolding scan_last_index
scan_last_index-Holds unmarshal bound seg ws (h, (rs, b)) = rw h (
    scan_from-file_of unmarshal (suc (length (file_of ws))) 0 [] ws rs
      (omega (arith, length-file_of ws)))

pub All-map {ℓ κ μ} :
    {A : Type ℓ} {P : A → Type κ} {Q : A → Type μ} (xs : List A)
    → ((a : A) → P a → Q a)
    → All P xs
    → All Q xs
All-map [] f h = tt
All-map (x ∷ xs) f (h, hs) = (f x h, All-map xs f hs)

-- The segments that end behind `up_to` hold all that the sealed segments have behind `up_to`.
kept-Sealed :
    (unmarshal : List ℕ → Option Entry) (up_to snapshot_index : ℕ) (segs : List Segment)
    (wss : List (List Written))
    → up_to ≤ snapshot_index
    → Sealed unmarshal segs wss
    → (kept : List (List Written)) × (Sealed unmarshal
          (select (λ seg. ltb up_to seg.end_index) segs)
          kept
        × (newer snapshot_index (entries_of (joined kept))
            ≡ newer snapshot_index (entries_of (joined wss))))
kept-Sealed unmarshal up_to snapshot_index [] [] h s = ([], (tt, refl))
kept-Sealed unmarshal up_to snapshot_index [] (ws ∷ wss) h s = absurd s
kept-Sealed unmarshal up_to snapshot_index (seg ∷ segs) [] h s = absurd s
kept-Sealed unmarshal up_to snapshot_index (seg ∷ segs) (ws ∷ wss) h ((c, (rs, b)), s) =
    let (kept, (s', e)) = kept-Sealed unmarshal up_to snapshot_index segs wss h s in
    let split = newer-log_append snapshot_index ws (joined wss) in
    elim (Bool-cases (ltb up_to seg.end_index)) [
      | inl t ↦ (
        ws ∷ kept,
        (
          rw t ((c, (rs, b)), s'),
          rw (newer-log_append snapshot_index ws (joined kept), split, e) refl,
        ),
      )
      | inr f ↦
          let low : seg.end_index ≤ up_to = ground arith in
          let below : All (λ w. w.0.index ≤ up_to) ws =
            All-map ws (λ w k. omega (arith, k, low)) b in
          (kept, (rw f s', rw (split, newer-none ws up_to snapshot_index h below) e))
    ]

-- The log with the sealed segments that end behind `up_to`.
kept : SegmentedWal → ℕ → SegmentedWal
kept sw up_to = record sw { segments = select (λ seg. ltb up_to seg.end_index) sw.segments }

-- Truncate on every branch: it returns.
truncate-Contains :
    (unmarshal : List ℕ → Option Entry) (sw : SegmentedWal) (wss : List (List Written))
    (ws : List Written) (up_to : ℕ)
    → Contains unmarshal sw wss ws
    → truncate sw up_to
      ≡ done (
          ok (
            if leb sw.active.start_index up_to && leb (last_of 0 ws) up_to
            then renewed (kept sw up_to) up_to
            else kept sw up_to))
unfolding truncate kept
truncate-Contains unmarshal sw wss ws up_to (s, h) =
    let scan = scan_last_index-Holds unmarshal sw.next_index sw.active ws h in
    elim (Bool-cases (leb sw.active.start_index up_to)) [
      | inl t ↦ rw (truncate, t, scan) refl
      | inr f ↦ rw f refl
    ]

renewed-Contains :
    (unmarshal : List ℕ → Option Entry) (sw : SegmentedWal) (wss : List (List Written)) (up_to : ℕ)
    → Sealed unmarshal sw.segments wss
    → Contains unmarshal (renewed sw up_to) wss []
unfolding renewed
renewed-Contains unmarshal sw wss up_to s = (s, (refl, (tt, tt)))

-- What Truncate leaves: a log with the same entries behind `up_to`.
truncate-Logs :
    (unmarshal : List ℕ → Option Entry) (sw : SegmentedWal) (log : List Written)
    (up_to snapshot_index : ℕ)
    → Logs unmarshal sw log
    → Ascending log
    → up_to ≤ snapshot_index
    → (sw' : SegmentedWal) × (log' : List Written) × ((truncate sw up_to ≡ done (ok sw'))
        × (Logs unmarshal sw' log'
            × (newer snapshot_index (entries_of log') ≡ newer snapshot_index (entries_of log))))
unfolding kept
truncate-Logs unmarshal sw log up_to snapshot_index (wss, ws, ((s, h), e)) asc below =
    let (vss, (s', eq)) = kept-Sealed unmarshal up_to snapshot_index sw.segments wss below s in
    let ran = truncate-Contains unmarshal sw wss ws up_to (s, h) in
    let split = newer-log_append snapshot_index (joined wss) ws in
    let whole : newer snapshot_index (entries_of (joined wss ++ ws))
        ≡ newer snapshot_index (entries_of log) =
      ap (λ l. newer snapshot_index (entries_of l)) e in
    let renew = leb sw.active.start_index up_to && leb (last_of 0 ws) up_to in
    elim (Bool-cases renew) [
      | inl t ↦
          let last : last_of 0 ws ≤ up_to = ground arith in
          let none_left = newer-none ws up_to snapshot_index below (
            last_of-Ascending ws up_to
              (Ascending-append (joined wss) ws (subst Ascending (sym e) asc)) last) in
          (
            renewed (kept sw up_to) up_to,
            joined vss ++ [],
            (
              ran ∙ rw t refl,
              (
                (vss, [], (renewed-Contains unmarshal (kept sw up_to) vss up_to s', refl)),
                rw (append-nil (joined vss)) (
                    eq
                    ∙ sym (append-nil (newer snapshot_index (entries_of (joined wss))))
                    ∙ rw (sym none_left) (sym split)
                    ∙ whole),
              ),
            ),
          )
      | inr f ↦ (
        kept sw up_to,
        joined vss ++ ws,
        (
          ran ∙ rw f refl,
          (
            (vss, ws, ((s', h), refl)),
            newer-log_append snapshot_index (joined vss) ws ∙ rw eq (sym split) ∙ whole,
          ),
        ),
      )
    ]

-- Let the files of the log hold entries of growing indices, and let a snapshot cover the indices up to
-- `up_to`. Truncate up to there returns, and leaves a log from which Recover, behind that snapshot,
-- hands on what it handed on before; the files that are left hold entries again.
pub recover_wal-truncate :
    (unmarshal : List ℕ → Option Entry) (sw : SegmentedWal) (log : List Written)
    (up_to snapshot_index : ℕ)
    → Logs unmarshal sw log
    → Ascending log
    → up_to ≤ snapshot_index
    → (sw' : SegmentedWal) × (log' : List Written) × ((truncate sw up_to ≡ done (ok sw'))
        × (Logs unmarshal sw' log'
            × (recover_wal unmarshal sw' snapshot_index ≡ recover_wal unmarshal sw snapshot_index)))
recover_wal-truncate unmarshal sw log up_to snapshot_index l asc below =
    let (sw', log', (ran, (l', e))) =
      truncate-Logs unmarshal sw log up_to snapshot_index l asc below in
    (
      sw',
      log',
      (
        ran,
        (
          l',
          recover_wal-Logs unmarshal sw' log' snapshot_index l'
              ∙ (rw e (sym (recover_wal-Logs unmarshal sw log snapshot_index l))),
        ),
      ),
    )

select-none {ℓ} :
    {A : Type ℓ} (p : A → Bool) (xs : List A) → All (λ x. p x ≡ false) xs → select p xs ≡ []
select-none p [] h = refl
select-none p (x ∷ xs) (h, hs) = rw (h, select-none p xs hs) refl

All-suffix {ℓ κ} : {A : Type ℓ} (P : A → Type κ) (xs ys : List A) → All P (xs ++ ys) → All P ys
All-suffix P [] ys h = h
All-suffix P (x ∷ xs) ys (_, h) = All-suffix P xs ys h

last_of-All :
    (last : ℕ) (ws : List Written) (up_to : ℕ)
    → last ≤ up_to
    → All (λ w. w.0.index ≤ up_to) ws
    → last_of last ws ≤ up_to
last_of-All last [] up_to h a = h
last_of-All last (w ∷ ws) up_to h (l, a) = last_of-All w.0.index ws up_to l a

-- Let the files of the log hold entries of growing indices, none behind `up_to`, with no segment that
-- ends behind it or starts behind it. Truncate up to there returns and leaves a log from which Recover
-- hands on nothing, whichever the snapshot: the entry at `up_to` is gone too.
pub truncate-everything :
    (unmarshal : List ℕ → Option Entry) (sw : SegmentedWal) (log : List Written)
    (up_to snapshot_index : ℕ)
    → Logs unmarshal sw log
    → Ascending log
    → All (λ w. w.0.index ≤ up_to) log
    → All (λ seg. seg.end_index ≤ up_to) sw.segments
    → sw.active.start_index ≤ up_to
    → (sw' : SegmentedWal) × ((truncate sw up_to ≡ done (ok sw'))
        × (recover_wal unmarshal sw' snapshot_index ≡ done (ok [])))
unfolding kept
truncate-everything unmarshal sw log up_to snapshot_index (wss, ws, ((s, h), e)) asc all ends
      start =
    let dropped : select (λ seg. ltb up_to seg.end_index) sw.segments ≡ [] =
      select-none (λ seg. ltb up_to seg.end_index) sw.segments
        (All-map sw.segments (λ seg k. ground (arith, k)) ends) in
    let last : last_of 0 ws ≤ up_to = last_of-All 0 ws up_to (omega arith) (
      All-suffix (λ w. w.0.index ≤ up_to) (joined wss) ws
        (subst (All (λ w. w.0.index ≤ up_to)) (sym e) all)) in
    let renew : (leb sw.active.start_index up_to && leb (last_of 0 ws) up_to) ≡ true =
      ground arith in
    let empty : Sealed unmarshal (select (λ seg. ltb up_to seg.end_index) sw.segments) [] =
      rw dropped tt in
    (
      renewed (kept sw up_to) up_to,
      (
        truncate-Contains unmarshal sw wss ws up_to (s, h) ∙ rw renew refl,
        recover_wal-Contains unmarshal (renewed (kept sw up_to) up_to) [] [] snapshot_index
            (renewed-Contains unmarshal (kept sw up_to) [] up_to empty),
      ),
    )
