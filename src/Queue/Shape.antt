-- ===== src/Queue/Shape.antt =====
-- The invariant of the queue's slice, which every operation of process_queue.go keeps.
use cue.Base.{
  Bool-cases, get_elem?-within, ◌⊎◌, zero, ℕ, suc, ◌-◌, ◌≤◌, ◌<◌, ◌≡◌, refl, List, [], ◌∷◌, some,
  arith, leb, ◌==◌, if◌then◌else◌, length, get_elem?, set, replicate, length-set, get_elem?-set,
  lt-length_of_get_elem?, Option-cases, Result, ok, err, inl, inr,
}
use cue.Base.Int.{ℤ, pos, negsuc, ◌+ℤ◌}
use cue.Queue.{
  QueueError, capacity_exceeded, invalid_cell, added, removed, JobRef, ProcessQueue, tombstone,
  new_process_queue, add_new_job, move_into, remove_by_cell_index, remove_cells, set_retry,
  update_retry,
}

-- The live slots come first and know their position; the others are tombstones.
pub record IsValid (q : ProcessQueue) : Type 0 where
  pub bounded : q.live_count ≤ length q.records
  pub cells :
      (i : ℕ) (r : JobRef) → i < q.live_count → get_elem? q.records i ≡ some r → r.cell ≡ pos i
  pub dead :
      (i : ℕ) (r : JobRef) → q.live_count ≤ i → get_elem? q.records i ≡ some r → r ≡ tombstone

get_elem?-replicate {ℓ} :
    {A : Type ℓ} (n : ℕ) (a : A) (i : ℕ) (r : A) → get_elem? (replicate n a) i ≡ some r → r ≡ a
get_elem?-replicate zero a i r h = ground arith
get_elem?-replicate (suc n) a zero r h = ground arith
get_elem?-replicate (suc n) a (suc i) r h = get_elem?-replicate n a i r h

pub new_process_queue-IsValid : (capacity : ℕ) → IsValid (new_process_queue capacity)
unfolding new_process_queue
new_process_queue-IsValid capacity = record {
  bounded = omega arith;
  cells = λ i r h e. absurd (omega arith);
  dead = λ i r h e. get_elem?-replicate capacity tombstone i r e;
}

-- `AddNewJob` fails exactly on a full queue.
pub add_new_job-cases :
    (q : ProcessQueue) (job : JobRef)
    → ((length q.records ≤ q.live_count) × (add_new_job q job ≡ err capacity_exceeded))
      ⊎ ((q.live_count < length q.records) × (add_new_job q job ≡ ok (added q job)))
unfolding add_new_job
add_new_job-cases q job = elim (Bool-cases (leb (length q.records) q.live_count)) [
  | inl e ↦ inl (ground arith, rw e)
  | inr e ↦ inr (ground arith, rw e)
]

pub added-IsValid :
    (q : ProcessQueue) (job : JobRef)
    → IsValid q
    → q.live_count < length q.records
    → IsValid (added q job)
unfolding added
added-IsValid q job v room = record {
  bounded =
      omega (arith, length-set q.records q.live_count (record job { cell = pos q.live_count }));
  cells = λ i r lt e. ground (
    arith,
    get_elem?-set q.records q.live_count i (record job { cell = pos q.live_count }),
    v.cells i r,
  );
  dead = λ i r le e. ground (
    arith,
    get_elem?-set q.records q.live_count i (record job { cell = pos q.live_count }),
    v.dead i r,
  );
}

length-move_into : (rs : List JobRef) (last cell : ℕ) → length (move_into rs last cell) ≡ length rs
unfolding move_into
length-move_into rs last cell = elim (Option-cases (get_elem? rs last)) [
  | inl e ↦ rw (e, move_into) refl
  | inr (r, e) ↦ rw (e, move_into) (length-set rs cell _)
]

pub move_into-some :
    (rs : List JobRef) (last cell : ℕ) {r : JobRef}
    → get_elem? rs last ≡ some r
    → move_into rs last cell ≡ set rs cell (record r { cell = pos cell })
unfolding move_into
move_into-some rs last cell e = rw (e, move_into) refl

abbrev recell : ℕ → JobRef → JobRef
recell i r = record r { cell = pos i }

-- The slots after a removal, when `last` holds `r`.
pub get_elem?-removed :
    (q : ProcessQueue) (cell last i : ℕ) {r : JobRef}
    → q.live_count ≡ suc last
    → cell ≤ last
    → get_elem? q.records last ≡ some r
    → get_elem? (removed q cell).records i ≡ (
        if i == last
        then some tombstone
        else if i == cell
        then some (recell cell r)
        else get_elem? q.records i)
unfolding removed
get_elem?-removed q cell last i {r} n le e =
    let here : q.live_count - 1 ≡ last = omega arith in
    let room = lt-length_of_get_elem? q.records last r e in
    rw (here, move_into-some q.records last cell e)
      (ground (
        arith,
        get_elem?-set q.records last i tombstone,
        get_elem?-set (set q.records cell (recell cell r)) last i tombstone,
        get_elem?-set q.records cell i (recell cell r),
        length-set q.records cell (recell cell r),
      ))

pub length-removed :
    (q : ProcessQueue) (cell : ℕ) → length (removed q cell).records ≡ length q.records
unfolding removed
length-removed q cell =
    let last = q.live_count - 1 in
    ground (
      arith,
      length-set q.records last tombstone,
      length-set (move_into q.records last cell) last tombstone,
      length-move_into q.records last cell,
    )

pub live_count-removed :
    (q : ProcessQueue) (cell : ℕ) → (removed q cell).live_count ≡ q.live_count - 1
unfolding removed
live_count-removed q cell = refl

pub removed-IsValid :
    (q : ProcessQueue) (cell : ℕ) → IsValid q → cell < q.live_count → IsValid (removed q cell)
removed-IsValid q cell v h =
    let last = q.live_count - 1 in
    let (r, e) = get_elem?-within q.records last (omega (arith, v.bounded)) in
    let slots = λ (i : ℕ). get_elem?-removed q cell last i (omega arith) (omega arith) e in
    let n = live_count-removed q cell in
    record {
      bounded = omega (arith, v.bounded, length-removed q cell, n);
      cells = λ i s lt at. ground (arith, n, slots i, v.cells i s, v.cells last r);
      dead = λ i s le at. ground (arith, n, slots i, v.dead i s);
    }

pub remove_by_cell_index-cases :
    (q : ProcessQueue) (c : ℤ)
    → (remove_by_cell_index q c ≡ q)
      ⊎ ((cell : ℕ) × (c ≡ pos cell)
          × (cell < q.live_count)
          × (remove_by_cell_index q c ≡ removed q cell))
unfolding remove_by_cell_index
remove_by_cell_index-cases q (negsuc n) = inl refl
remove_by_cell_index-cases q (pos cell) = elim (Bool-cases (leb q.live_count cell)) [
  | inl e ↦ inl (rw e refl)
  | inr e ↦ inr (cell, refl, ground arith, rw e refl)
]

pub remove_by_cell_index-IsValid :
    (q : ProcessQueue) (c : ℤ) → IsValid q → IsValid (remove_by_cell_index q c)
remove_by_cell_index-IsValid q c v = elim (remove_by_cell_index-cases q c) [
  | inl e ↦ rw e v
  | inr (cell, at, lt, e) ↦ rw e (removed-IsValid q cell v lt)
]

pub remove_cells-IsValid :
    (q : ProcessQueue) (rs : List JobRef) → IsValid q → IsValid (remove_cells q rs)
unfolding remove_cells
remove_cells-IsValid q [] v = v
remove_cells-IsValid q (r ∷ rs) v =
    remove_by_cell_index-IsValid (remove_cells q rs) r.cell (remove_cells-IsValid q rs v)

set_retry-some :
    (rs : List JobRef) (cell : ℕ) (retries due : ℤ) {r : JobRef}
    → get_elem? rs cell ≡ some r
    → set_retry rs cell retries due
      ≡ set rs cell (record r { retry_count = retries; due_time_sec = due })
unfolding set_retry
set_retry-some rs cell retries due e = rw (e, set_retry) refl

-- The queue with the retry count and the due time of a live cell set.
abbrev pub retried : ProcessQueue → ℕ → ℤ → ℤ → JobRef → ProcessQueue
retried q cell retries due r = record q {
  records = set q.records cell (record r { retry_count = retries; due_time_sec = due });
}

pub update_retry-cases :
    (q : ProcessQueue) (c retries delay now : ℤ)
    → IsValid q
    → (update_retry q c retries delay now ≡ err invalid_cell)
      ⊎ ((cell : ℕ) × (r : JobRef) × (c ≡ pos cell)
          × (cell < q.live_count)
          × (get_elem? q.records cell ≡ some r)
          × (update_retry q c retries delay now ≡ ok (retried q cell retries (now +ℤ delay) r)))
unfolding update_retry
update_retry-cases q (negsuc n) retries delay now v = inl refl
update_retry-cases q (pos cell) retries delay now v = elim (Bool-cases (leb q.live_count cell)) [
  | inl e ↦ inl (rw e refl)
  | inr e ↦
      let lt : cell < q.live_count = ground arith in
      let (r, at) = get_elem?-within q.records cell (omega (arith, v.bounded)) in
      inr (
        cell,
        r,
        refl,
        lt,
        at,
        rw (e, set_retry-some q.records cell retries (now +ℤ delay) at) refl,
      )
]

retried-IsValid :
    (q : ProcessQueue) (cell : ℕ) (retries due : ℤ) (r : JobRef)
    → IsValid q
    → cell < q.live_count
    → get_elem? q.records cell ≡ some r
    → IsValid (retried q cell retries due r)
retried-IsValid q cell retries due r v lt at =
    let r' : JobRef = record r { retry_count = retries; due_time_sec = due } in
    let slots = λ (i : ℕ). get_elem?-set q.records cell i r' in
    record {
      bounded = omega (arith, v.bounded, length-set q.records cell r');
      cells = λ i s l e. ground (arith, slots i, v.cells i s, v.cells cell r);
      dead = λ i s l e. ground (arith, slots i, v.dead i s);
    }

-- The operations of the queue, and what each leaves: one that fails leaves the queue as it was.
pub data Operation : Type 0 where
  adds : JobRef → Operation
  removes : ℤ → Operation
  removes_all : List JobRef → Operation
  retries : ℤ → ℤ → ℤ → ℤ → Operation

abbrev pub after : ProcessQueue → Result QueueError ProcessQueue → ProcessQueue
after q (ok q') = q'
after q (err e) = q

unfoldable pub apply : ProcessQueue → Operation → ProcessQueue
apply q (adds job) = after q (add_new_job q job)
apply q (removes c) = remove_by_cell_index q c
apply q (removes_all rs) = remove_cells q rs
apply q (retries c n delay now) = after q (update_retry q c n delay now)

-- Every operation keeps the invariant of a well-formed queue: the live slots stay within the slice
-- and in front, each knows its position, and all others are tombstones.
pub apply-IsValid : (q : ProcessQueue) (op : Operation) → IsValid q → IsValid (apply q op)
unfolding apply
apply-IsValid q (adds job) v = elim (add_new_job-cases q job) [
  | inl (full, e) ↦ rw e v
  | inr (room, e) ↦ rw e (added-IsValid q job v room)
]
apply-IsValid q (removes c) v = remove_by_cell_index-IsValid q c v
apply-IsValid q (removes_all rs) v = remove_cells-IsValid q rs v
apply-IsValid q (retries c n delay now) v = elim (update_retry-cases q c n delay now v) [
  | inl e ↦ rw e v
  | inr (cell, r, _, lt, at, e) ↦ rw e (retried-IsValid q cell n (now +ℤ delay) r v lt at)
]
