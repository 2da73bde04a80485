-- ===== src/Wal/Startup/Reopening.antt =====
-- internal/cluster/raft_segment.go: NewSegmentedWal on the files that a log left.
use mathlib.Core.List.{append_assoc, append-nil}
use cue.Base.{
  ℕ, ◌+◌, ◌<◌, ◌≡◌, refl, sym, ap, subst, ◌∙◌, true, false, List, [], ◌∷◌, ◌++◌, none, some, map,
  All, length, ltb, ok, arith,
}
use cue.Wal.{Segment}
use cue.Wal.Startup.{
  parse_segment, parse_segments, segment_file, insert_by_start, sort_by_start, is_continuous,
  separate, resume, open_wal, WalFile,
}

-- A segment under the name of a sealed one, and under the name of an active one.
abbrev pub IsSealed : Segment → Type 0
IsSealed seg = (seg.active ≡ false) × (seg.size ≡ length seg.content)

abbrev pub IsActive : Segment → Type 0
IsActive seg = (seg.active ≡ true) × ((seg.size ≡ length seg.content) × (seg.end_index ≡ 0))

-- Each segment starts behind the end of the one before it.
abbrev pub Linked : Segment → List Segment → Type 0
Linked seg [] = Unit
Linked seg (t ∷ ts) =
    (seg.start_index < t.start_index) × ((seg.end_index + 1 ≡ t.start_index) × Linked t ts)

abbrev pub Chain : List Segment → Type 0
Chain [] = Unit
Chain (seg ∷ segs) = Linked seg segs

parse_segment-sealed : (seg : Segment) → IsSealed seg → parse_segment (segment_file seg) ≡ some seg
unfolding parse_segment segment_file
parse_segment-sealed seg (a, s) = simp a (
    ap (λ n. some (record seg { size = n; active = false })) (sym s)
    ∙ ap (λ b. some (record seg { active = b })) (sym a))

parse_segment-active : (seg : Segment) → IsActive seg → parse_segment (segment_file seg) ≡ some seg
unfolding parse_segment segment_file
parse_segment-active seg (a, (s, e)) = simp a (
    ap (λ n. some (record seg { end_index = 0; size = n; active = true })) (sym s)
    ∙ (ap (λ n. some (record seg { end_index = n; active = true })) (sym e)
        ∙ ap (λ b. some (record seg { active = b })) (sym a)))

pub parse_segments-sealed :
    (segs : List Segment) (rest : List WalFile)
    → All IsSealed segs
    → parse_segments (map segment_file segs ++ rest) ≡ segs ++ parse_segments rest
unfolding parse_segments
parse_segments-sealed [] rest h = refl
parse_segments-sealed (seg ∷ segs) rest (h, hs) =
    rw (parse_segments, parse_segment-sealed seg h)
      (ap (λ l. seg ∷ l) (parse_segments-sealed segs rest hs))

pub parse_segments-active :
    (seg : Segment) (rest : List WalFile)
    → IsActive seg
    → parse_segments (segment_file seg ∷ rest) ≡ seg ∷ parse_segments rest
unfolding parse_segments
parse_segments-active seg rest h = rw (parse_segments, parse_segment-active seg h) refl

insert_by_start-first :
    (seg : Segment) (segs : List Segment) → Linked seg segs → insert_by_start seg segs ≡ seg ∷ segs
unfolding insert_by_start
insert_by_start-first seg [] h = refl
insert_by_start-first seg (t ∷ ts) (h, _) =
    let less : ltb t.start_index seg.start_index ≡ false = ground (arith, h) in rw less refl

sort_by_start-Chain : (segs : List Segment) → Chain segs → sort_by_start segs ≡ segs
unfolding sort_by_start
sort_by_start-Chain [] h = refl
sort_by_start-Chain (seg ∷ []) h = insert_by_start-first seg [] tt
sort_by_start-Chain (seg ∷ t ∷ ts) (h, (e, l)) =
    rw (sort_by_start-Chain (t ∷ ts) l) (insert_by_start-first seg (t ∷ ts) (h, (e, l)))

is_continuous-Chain : (segs : List Segment) → Chain segs → is_continuous segs ≡ true
unfolding is_continuous
is_continuous-Chain [] h = refl
is_continuous-Chain (seg ∷ []) h = refl
is_continuous-Chain (seg ∷ t ∷ ts) (h, (e, l)) = ground (arith, e, is_continuous-Chain (t ∷ ts) l)

separate-one_sealed :
    (seg : Segment) (rest before : List Segment)
    → seg.active ≡ false
    → separate (seg ∷ rest) before none ≡ separate rest (before ++ seg ∷ []) none
unfolding separate
separate-one_sealed seg rest before a = simp a

separate-sealed :
    (segs rest before : List Segment)
    → All IsSealed segs
    → separate (segs ++ rest) before none ≡ separate rest (before ++ segs) none
separate-sealed [] rest before h = rw (append-nil before) refl
separate-sealed (seg ∷ segs) rest before ((a, s), hs) =
    separate-one_sealed seg (segs ++ rest) before a
    ∙ (separate-sealed segs rest (before ++ seg ∷ []) hs
        ∙ rw (append_assoc before (seg ∷ []) segs) refl)

separate-active :
    (seg : Segment) (before : List Segment)
    → seg.active ≡ true
    → separate (seg ∷ []) before none ≡ ok (before, some seg)
unfolding separate
separate-active seg before a = simp a

-- The files of a chain of sealed segments and an active one, or none, with files that are no segments.
pub open_wal-active :
    (size : ℕ) (segs : List Segment) (seg : Segment) (rest : List WalFile)
    → All IsSealed segs
    → IsActive seg
    → Chain (segs ++ seg ∷ [])
    → parse_segments rest ≡ []
    → open_wal size (map segment_file segs ++ segment_file seg ∷ rest)
      ≡ resume size (segs, some seg)
unfolding open_wal
open_wal-active size segs seg rest ss a c r =
    let parsed : parse_segments (map segment_file segs ++ segment_file seg ∷ rest)
        ≡ segs ++ seg ∷ [] =
      parse_segments-sealed segs (segment_file seg ∷ rest) ss
      ∙ rw (parse_segments-active seg rest a, r) refl in
    let found = separate-sealed segs (seg ∷ []) [] ss ∙ separate-active seg segs a.0 in
    rw
      (
        open_wal,
        parsed,
        sort_by_start-Chain (segs ++ seg ∷ []) c,
        is_continuous-Chain (segs ++ seg ∷ []) c,
        found,
      )
      refl

pub open_wal-sealed :
    (size : ℕ) (segs : List Segment) (rest : List WalFile)
    → All IsSealed segs
    → Chain segs
    → parse_segments rest ≡ []
    → open_wal size (map segment_file segs ++ rest) ≡ resume size (segs, none)
unfolding open_wal separate
open_wal-sealed size segs rest ss c r =
    let parsed : parse_segments (map segment_file segs ++ rest) ≡ segs =
      parse_segments-sealed segs rest ss ∙ rw (r, append-nil segs) refl in
    let found : separate segs [] none ≡ ok (segs, none) =
      subst (λ l. separate l [] none ≡ ok (segs, none)) (append-nil segs)
        (separate-sealed segs [] [] ss) in
    rw (open_wal, parsed, sort_by_start-Chain segs c, is_continuous-Chain segs c, found) refl
