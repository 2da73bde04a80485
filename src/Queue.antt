-- ===== src/Queue.antt =====
-- internal/state/process_queue.go: the queue of references to jobs that wait for dispatch.
-- Go's `int` and `int64` are unbounded integers here. The time is an argument of the operations that
-- read the clock. An index beyond the slice, which panics in Go, leaves the slice as it is; the
-- invariant of Queue/Shape rules that out.
pub mod Shape
pub mod Contents
pub mod Removal
pub mod Scan
pub mod Batch
mod Tests
use cue.Base.{
  ℕ, suc, ◌+◌, ◌-◌, Bool, true, false, List, [], ◌∷◌, ◌++◌, Option, none, some, ltb, leb, ◌==◌,
  if◌then◌else◌, length, get_elem?, set, take, replicate, Result, ok, err,
}
use cue.Base.Int.{ℤ, pos, negsuc, ◌+ℤ◌, ltb_ℤ, leb_ℤ, eq_ℤ}

pub record JobRef : Type 0 where
  pub index : ℤ
  pub retry_count : ℤ
  pub cell : ℤ
  pub due_time_sec : ℤ

abbrev pub tombstone : JobRef
tombstone = record {
  index = negsuc 0;
  retry_count = negsuc 0;
  cell = negsuc 0;
  due_time_sec = negsuc 0;
}

pub record ProcessQueue : Type 0 where
  pub records : List JobRef
  pub live_count : ℕ

pub data QueueError : Type 0 where
  capacity_exceeded invalid_cell : QueueError

unfoldable pub new_process_queue : ℕ → ProcessQueue
new_process_queue capacity = record { records = replicate capacity tombstone; live_count = 0 }

-- The queue with the job in the first free slot.
unfoldable pub added : ProcessQueue → JobRef → ProcessQueue
added q job = record q {
  records = set q.records q.live_count (record job { cell = pos q.live_count });
  live_count = suc q.live_count;
}

-- `AddNewJob`
unfoldable pub add_new_job : ProcessQueue → JobRef → Result QueueError ProcessQueue
add_new_job q job =
    if leb (length q.records) q.live_count then err capacity_exceeded else ok (added q job)

-- `records[cell] = records[lastIdx]; records[cell].Cell = cell`
unfoldable pub move_into : List JobRef → ℕ → ℕ → List JobRef
move_into rs last cell = elim (get_elem? rs last) [
  | none ↦ rs
  | some r ↦ set rs cell (record r { cell = pos cell })
]

-- The queue without the live cell, whose place the last live job takes.
unfoldable pub removed : ProcessQueue → ℕ → ProcessQueue
unfolding move_into
removed q cell =
    let last = q.live_count - 1 in
    let moved = if cell == last then q.records else move_into q.records last cell in
    record q { records = set moved last tombstone; live_count = last }

-- `RemoveByCellIndex`
unfoldable pub remove_by_cell_index : ProcessQueue → ℤ → ProcessQueue
unfolding removed
remove_by_cell_index q (negsuc n) = q
remove_by_cell_index q (pos cell) = if leb q.live_count cell then q else removed q cell

-- `RemoveCells`: the last reference of the list is removed first.
unfoldable pub remove_cells : ProcessQueue → List JobRef → ProcessQueue
remove_cells q [] = q
remove_cells q (r ∷ rs) = remove_by_cell_index (remove_cells q rs) r.cell

set_retry : List JobRef → ℕ → ℤ → ℤ → List JobRef
set_retry rs cell retries due = elim (get_elem? rs cell) [
  | none ↦ rs
  | some r ↦ set rs cell (record r { retry_count = retries; due_time_sec = due })
]

-- `UpdateRetry`, at the time `now`
unfoldable pub update_retry : ProcessQueue → ℤ → ℤ → ℤ → (now : ℤ) → Result QueueError ProcessQueue
unfolding set_retry
update_retry q (negsuc n) retries delay now = err invalid_cell
update_retry q (pos cell) retries delay now =
    if leb q.live_count cell
    then err invalid_cell
    else ok (record q { records = set_retry q.records cell retries (now +ℤ delay) })

-- The slots below `liveCount`, which the loops read.
abbrev pub live : ProcessQueue → List JobRef
live q = take q.live_count q.records

-- `1<<63 - 1`
abbrev pub max_int64 : ℤ
max_int64 = pos 0x7fffffffffffffff

pub record Oldest : Type 0 where
  pub oldest_time : ℤ
  pub second_time : ℤ
  pub oldest_count : ℕ
  pub second_count : ℕ

abbrev pub no_times : Oldest
no_times = record {
  oldest_time = max_int64;
  second_time = max_int64;
  oldest_count = 0;
  second_count = 0;
}

-- The body of the first loop of `ReadBatch`, for one ready slot.
unfoldable pub scan_due : Oldest → ℤ → Oldest
scan_due s due =
    if ltb_ℤ due s.oldest_time
    then record {
      oldest_time = due;
      second_time = s.oldest_time;
      oldest_count = 1;
      second_count = s.oldest_count;
    }
    else if eq_ℤ due s.oldest_time
    then record s { oldest_count = suc s.oldest_count }
    else if ltb_ℤ due s.second_time
    then record s { second_time = due; second_count = 1 }
    else if eq_ℤ due s.second_time
    then record s { second_count = suc s.second_count }
    else s

unfoldable pub scan : ℤ → Oldest → List JobRef → Oldest
scan now s [] = s
scan now s (r ∷ rs) =
    scan now (if leb_ℤ r.due_time_sec now then scan_due s r.due_time_sec else s) rs

pub record Collected : Type 0 where
  pub items : List JobRef
  pub collected : ℕ

-- A collecting loop of `ReadBatch`, which ends at `count` items.
unfoldable pub collect : ℤ → ℤ → List JobRef → Collected → Collected
collect time count [] c = c
collect time count (r ∷ rs) c =
    let next : Collected =
      if eq_ℤ r.due_time_sec time
      then record { items = c.items ++ r ∷ []; collected = suc c.collected }
      else c in
    let rest = collect time count rs next in if ltb_ℤ (pos c.collected) count then rest else c

abbrev nothing_collected : Collected
nothing_collected = record { items = []; collected = 0 }

-- The second pass: the jobs of the oldest time, and then those of the second oldest.
collect_batch : ℤ → List JobRef → Oldest → List JobRef
collect_batch count rs s =
    if s.oldest_count == 0
    then []
    else (let first = collect s.oldest_time count rs nothing_collected in
        if ltb_ℤ (pos first.collected) count
        then (if ltb 0 s.second_count
            then (collect s.second_time count rs first).items
            else first.items)
        else first.items)

-- `ReadBatch`
unfoldable pub read_batch : ProcessQueue → ℤ → ℤ → List JobRef
unfolding scan scan_due collect collect_batch
read_batch q count now =
    if q.live_count == 0 then [] else collect_batch count (live q) (scan now no_times (live q))

-- `ActiveSize`
unfoldable pub active_size : ProcessQueue → ℕ
active_size q = q.live_count

-- `IsFull`
unfoldable pub is_full : ProcessQueue → Bool
is_full q = leb (length q.records) q.live_count
