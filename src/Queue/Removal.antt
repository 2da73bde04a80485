-- ===== src/Queue/Removal.antt =====
-- `RemoveCells` over several references: what it takes out when their cells ascend, and what it
-- leaves behind when they do not.
use mathlib.Core.List.{perm_middle}
use mathlib.Core.List.Perm
use cue.Base.{
  ℕ, suc, ◌-◌, ◌≤◌, ◌<◌, ◌≡◌, refl, ◌∙◌, List, [], ◌∷◌, ◌++◌, map, Perm, some, arith, leb,
  get_elem?, get_elem?-within, true, false,
}
use cue.Base.Int.{pos}
use cue.Queue.{JobRef, ProcessQueue, removed, remove_by_cell_index, remove_cells}
use cue.Queue.Shape.{IsValid, get_elem?-removed, live_count-removed, remove_cells-IsValid}
use cue.Queue.Contents.{forget, contents, contents-removed-perm}

-- The references stand in the queue, at strictly ascending cells from `k` on.
abbrev pub Picked : ProcessQueue → ℕ → List JobRef → Type 0
Picked q k [] = Unit
Picked q k (r ∷ rs) =
    (c : ℕ) × (r.cell ≡ pos c)
    × (k ≤ c)
    × (c < q.live_count)
    × (get_elem? q.records c ≡ some r)
    × Picked q (suc c) rs

remove_at :
    (q : ProcessQueue) (c : ℕ) → c < q.live_count → remove_by_cell_index q (pos c) ≡ removed q c
unfolding remove_by_cell_index
remove_at q c lt = let e : leb q.live_count c ≡ false = ground arith in rw e refl

remove_beyond : (q : ProcessQueue) (c : ℕ) → q.live_count ≤ c → remove_by_cell_index q (pos c) ≡ q
unfolding remove_by_cell_index
remove_beyond q c le = let e : leb q.live_count c ≡ true = ground arith in rw e refl

-- Below a removed cell nothing changes.
removed-below :
    (q : ProcessQueue) (c i : ℕ)
    → IsValid q
    → c < q.live_count
    → i < c
    → get_elem? (removed q c).records i ≡ get_elem? q.records i
removed-below q c i v lt below =
    let last = q.live_count - 1 in
    let (r, e) = get_elem?-within q.records last (omega (arith, v.bounded)) in
    ground (arith, get_elem?-removed q c last i (omega arith) (omega arith) e)

record Intact (q p : ProcessQueue) (k : ℕ) : Type 0 where
  enough : k ≤ p.live_count
  same : (i : ℕ) → i < k → get_elem? p.records i ≡ get_elem? q.records i

remove_cells-Intact :
    (q : ProcessQueue) (k : ℕ) (rs : List JobRef)
    → IsValid q
    → k ≤ q.live_count
    → Picked q k rs
    → Intact q (remove_cells q rs) k
unfolding remove_cells
remove_cells-Intact q k [] v le p = record { enough = le; same = λ i lt. refl }
remove_cells-Intact q k (r ∷ rs) v le (c, cell, kc, lt, at, more) =
    let rest = remove_cells-Intact q (suc c) rs v lt more in
    let p = remove_cells q rs in
    let step = remove_at p c rest.enough in
    rw (cell, step)
      (record {
        enough = omega (arith, rest.enough, live_count-removed p c);
        same = λ i below.
            removed-below p c i (remove_cells-IsValid q rs v) rest.enough (omega arith)
            ∙ rest.same i (omega arith);
      })

-- On a well-formed queue, given live references at ascending cells from `k` on, `RemoveCells` takes
-- out exactly their jobs.
pub remove_cells-perm :
    (q : ProcessQueue) (k : ℕ) (rs : List JobRef)
    → IsValid q
    → k ≤ q.live_count
    → Picked q k rs
    → Perm (contents q) (map forget rs ++ contents (remove_cells q rs))
unfolding remove_cells
remove_cells-perm q k [] v le p = Perm.refl _
remove_cells-perm q k (r ∷ rs) v le (c, cell, kc, lt, at, more) =
    let kept = remove_cells-Intact q (suc c) rs v lt more in
    let p = remove_cells q rs in
    let one =
      contents-removed-perm p c r (remove_cells-IsValid q rs v) kept.enough
        (kept.same c (omega arith) ∙ at) in
    rw (cell, remove_at p c kept.enough)
      (Perm.trans (remove_cells-perm q (suc c) rs v lt more)
        (Perm.trans (Perm.append_left (map forget rs) one) (perm_middle (map forget rs) _)))

-- On a well-formed queue, given the last live cell before a lower one, as `ReadBatch` delivers them
-- when the job in the last cell is the older, `RemoveCells` takes out the lower one only: the other
-- job stays in the queue.
pub remove_cells-unordered :
    (q : ProcessQueue) (c last : ℕ) (r rl : JobRef)
    → IsValid q
    → q.live_count ≡ suc last
    → c < last
    → get_elem? q.records c ≡ some r
    → get_elem? q.records last ≡ some rl
    → Perm (contents q) (forget r ∷ contents (remove_cells q (rl ∷ r ∷ [])))
unfolding remove_cells
remove_cells-unordered q c last r rl v n lt at there =
    let first = remove_at q c (omega arith) in
    let second = remove_beyond (removed q c) last (omega (arith, live_count-removed q c)) in
    rw (v.cells c r (omega arith) at, v.cells last rl (omega arith) there, first, second)
      (contents-removed-perm q c r v (omega arith) at)
