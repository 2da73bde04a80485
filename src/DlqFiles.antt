-- ===== src/DlqFiles.antt =====
-- internal/cluster/dlq.go: the files of dead letters. `buffers[active]` and `buffers[1 - active]` are the
-- fields `active` and `spare`, which a flush swaps. A line is its three fields, `width` its bytes, and
-- `grown` the capacity that Go's `append` gives a full slice. A step is what one hold of the lock does,
-- or the writing of a batch to the file; `writers` are the goroutines of `write` that run, each with how
-- far it came, and `closer` is how far the call of `Close` came. `flushing` is a value of its own: the
-- array that it shares with an emptied buffer is not modelled. Opening files succeeds, and so does
-- renaming a file back; `doRotate` is one step.
pub mod Writers
pub mod Contents
pub mod Rounds
pub mod Conservation
pub mod Closed
pub mod Closing
mod Tests
use cue.Base.{
  ℕ, zero, suc, ◌+◌, ◌*◌, Bool, true, false, not, ◌&&◌, ◌||◌, List, [], ◌∷◌, ◌++◌, Option, none,
  some, get_elem?, String, map, take, select, if◌then◌else◌, length, ltb, leb, ◌==◌,
}
use cue.Base.Int.{ℤ}

-- `fmt.Sprintf("%d|%s|%s\n", timestamp, topic, jobID)`
pub record Line : Type 0 where
  pub timestamp : ℤ
  pub topic : String
  pub job_id : String

pub record Buffer : Type 0 where
  pub lines : List Line
  pub capacity : ℕ

-- A goroutine of `write`: at the head of the loop, with the batch that it read, behind an error, with the
-- bytes that it synced, behind `persistBatch`, and before the chained flush.
pub data Writer : Type 0 where
  starting : Writer
  holding : (batch : List Line) → Writer
  failed : Writer
  synced : (size : ℕ) → Writer
  written chaining : Writer

-- The one call of `Close`: it waits for a rotation, waits for the lock, waits for the writers, or is done.
pub data Closer : Type 0 where
  not_called rotation_wait lock_wait writer_wait finished : Closer

pub record DlqFileManager : Type 0 where
  pub max_size_bytes : ℕ
  pub is_rotating : Bool
  pub is_closed : Bool
  pub active : Buffer
  pub spare : Buffer
  pub flushing : List Line
  pub busy : Bool
  pub file_open : Bool
  pub current : List Line
  pub file_size : ℕ
  pub sealed_files : List (ℕ × List Line)
  pub writers : List Writer
  pub closer : Closer

abbrev pub initial_cap : ℕ
initial_cap = 4096

-- The bytes of some lines.
unfoldable pub total_width : (Line → ℕ) → List Line → ℕ
total_width width [] = 0
total_width width (l ∷ ls) = width l + total_width width ls

-- `openCurrentFile`
unfoldable pub open_current_file : (Line → ℕ) → DlqFileManager → DlqFileManager
unfolding total_width
open_current_file width m = record m { file_open = true; file_size = total_width width m.current }

-- `NewDLQFileManager`, on a current file with these lines and these sealed files
unfoldable pub new_dlq_file_manager :
    (Line → ℕ) → ℕ → List Line → List (ℕ × List Line) → DlqFileManager
unfolding open_current_file
new_dlq_file_manager width max_size_bytes current sealed_files = open_current_file width (record {
  max_size_bytes = max_size_bytes;
  is_rotating = false;
  is_closed = false;
  active = record { lines = []; capacity = initial_cap };
  spare = record { lines = []; capacity = initial_cap };
  flushing = [];
  busy = false;
  file_open = false;
  current = current;
  file_size = 0;
  sealed_files = sealed_files;
  writers = [];
  closer = not_called;
})

-- The loop of `AppendBatch`: Go's `append` of one line after the other.
unfoldable pub append_lines : (ℕ → ℕ) → Buffer → List Line → Buffer
append_lines grown b [] = b
append_lines grown b (l ∷ ls) =
    let capacity = if ltb (length b.lines) b.capacity then b.capacity else grown b.capacity in
    append_lines grown (record { lines = b.lines ++ l ∷ []; capacity = capacity }) ls

-- `grow`
unfoldable pub grow : Buffer → Buffer
grow b = record {
  lines = [];
  capacity = if b.capacity * 2 == 0 then initial_cap else b.capacity * 2;
}

-- `triggerFlushLocked`
unfoldable pub trigger_flush : DlqFileManager → DlqFileManager
unfolding grow
trigger_flush m =
    let enough =
      if ltb m.spare.capacity (length m.active.lines * 2) then grow m.spare else m.spare in
    if (length m.active.lines == 0) || ltb 0 (length m.spare.lines) then m else record m {
      flushing = m.active.lines;
      active = enough;
      spare = record m.active { lines = [] };
      busy = true;
      writers = m.writers ++ starting ∷ [];
    }

unfoldable pub lines_of : ℤ → String → List String → List Line
lines_of timestamp topic job_ids =
    map (λ id. record { timestamp = timestamp; topic = topic; job_id = id }) job_ids

-- `AppendBatch` with the lock, which is behind its guard.
unfoldable pub buffer_lines : (ℕ → ℕ) → List Line → DlqFileManager → DlqFileManager
unfolding append_lines trigger_flush
buffer_lines grown ls m =
    let m' = record m { active = append_lines grown m.active ls } in
    if leb m'.active.capacity (length m'.active.lines) && not m.busy then trigger_flush m' else m'

-- `AppendBatch`, where nothing comes between its guard and the lock
unfoldable pub append_batch : (ℕ → ℕ) → ℤ → String → List String → DlqFileManager → DlqFileManager
unfolding buffer_lines lines_of
append_batch grown timestamp topic job_ids m =
    if (length job_ids == 0) || m.is_closed
    then m
    else buffer_lines grown (lines_of timestamp topic job_ids) m

-- How the writes of a batch end: all of it is written and synced, or an error stops it after some lines.
pub data PersistOutcome : Type 0 where
  all_written : PersistOutcome
  failed_after : (n : ℕ) → PersistOutcome

-- The writer at a place, replaced by what becomes of it.
unfoldable pub splice : ℕ → List Writer → List Writer → List Writer
splice i new [] = []
splice zero new (w ∷ ws) = new ++ ws
splice (suc i) new (w ∷ ws) = w ∷ splice i new ws

abbrev pub becomes : ℕ → List Writer → DlqFileManager → DlqFileManager
becomes i new m = record m { writers = splice i new m.writers }

-- The head of the loop of `write`
unfoldable pub read_flushing : ℕ → DlqFileManager → DlqFileManager
read_flushing i m =
    if length m.flushing == 0
    then becomes i [] (record m { busy = false })
    else becomes i (holding m.flushing ∷ []) m

-- `persistBatch`, up to its sync
unfoldable pub persist_lines :
    (Line → ℕ) → ℕ → List Line → PersistOutcome → DlqFileManager → DlqFileManager
unfolding total_width
persist_lines width i batch all_written m =
    if not m.file_open
    then becomes i (failed ∷ []) m
    else becomes i (synced (total_width width batch) ∷ [])
        (record m { current = m.current ++ batch })
persist_lines width i batch (failed_after n) m =
    if not m.file_open
    then becomes i (failed ∷ []) m
    else becomes i (failed ∷ []) (record m { current = m.current ++ take n batch })

-- The end of `persistBatch`, with the start of a rotation
unfoldable pub count_bytes : ℕ → ℕ → DlqFileManager → DlqFileManager
count_bytes i size m = becomes i (written ∷ []) (record m {
  file_size = m.file_size + size;
  is_rotating = m.is_rotating || ltb m.max_size_bytes (m.file_size + size);
})

-- Where `persistBatch` failed: `write` tries again, unless the manager is closed.
unfoldable pub write_failed : ℕ → DlqFileManager → DlqFileManager
write_failed i m =
    if m.is_closed then becomes i [] (record m { busy = false }) else becomes i (starting ∷ []) m

-- `Success path` of `write`
unfoldable pub write_succeeded : ℕ → DlqFileManager → DlqFileManager
write_succeeded i m = becomes i (chaining ∷ []) (record m { flushing = []; busy = false })

-- The test of the chained flush
unfoldable pub chain_due : DlqFileManager → Bool
chain_due m = not m.is_closed && leb m.active.capacity (length m.active.lines)

-- `Check for chained flush` of `write`
unfoldable pub chain_flush : ℕ → DlqFileManager → DlqFileManager
unfolding trigger_flush chain_due
chain_flush i m = let m' = becomes i [] m in if chain_due m then trigger_flush m' else m'

-- A step of the goroutine at a place
unfoldable pub write_step :
    (Line → ℕ) → ℕ → PersistOutcome → Writer → DlqFileManager → DlqFileManager
unfolding read_flushing persist_lines write_failed count_bytes write_succeeded chain_flush
write_step width i outcome starting m = read_flushing i m
write_step width i outcome (holding batch) m = persist_lines width i batch outcome m
write_step width i outcome failed m = write_failed i m
write_step width i outcome (synced size) m = count_bytes i size m
write_step width i outcome written m = write_succeeded i m
write_step width i outcome chaining m = chain_flush i m

-- `write`, one step further
unfoldable pub write : (Line → ℕ) → ℕ → PersistOutcome → DlqFileManager → DlqFileManager
unfolding write_step
write width i outcome m = elim (get_elem? m.writers i) [
  | none ↦ m
  | some w ↦ write_step width i outcome w m
]

-- How the renames of a rotation end: the first fails, the second fails, or both succeed.
pub data RotateOutcome : Type 0 where
  not_moved moved_back moved : RotateOutcome

-- `os.Rename` to the name of a second: a sealed file of that name is replaced.
unfoldable pub seal : ℕ → List Line → List (ℕ × List Line) → List (ℕ × List Line)
seal second content files = select (λ f. not (f.0 == second)) files ++ (second, content) ∷ []

-- `doRotate`, where the name of the sealed file is that of the second
unfoldable pub do_rotate : (Line → ℕ) → ℕ → RotateOutcome → DlqFileManager → DlqFileManager
unfolding open_current_file seal
do_rotate width second outcome m =
    let m' = record m { is_rotating = false } in
    if leb m.file_size m.max_size_bytes || not m.file_open then m' else elim outcome [
      | not_moved ↦ open_current_file width m'
      | moved_back ↦ open_current_file width m'
      | moved ↦
          record (open_current_file width
            (record m' { current = []; sealed_files = seal second m.current m.sealed_files })) {
              file_size = 0;
            }
    ]

-- `Close` sets the flag.
unfoldable pub close : DlqFileManager → DlqFileManager
close m = record m { is_closed = true; closer = rotation_wait }

-- `Close` behind its loop, once no rotation is under way.
unfoldable pub close_wait : DlqFileManager → DlqFileManager
close_wait m = if m.is_rotating then m else record m { closer = lock_wait }

-- `Close` with the lock: the first buffer that holds lines is flushed, unless a flush is under way.
unfoldable pub close_flush : DlqFileManager → DlqFileManager
close_flush m =
    let m' = record m { closer = writer_wait } in
    if m.busy || ltb 0 (length m.flushing)
    then m'
    else if ltb 0 (length m.active.lines)
    then record m' {
      flushing = m.active.lines;
      active = record m.active { lines = [] };
      busy = true;
      writers = m.writers ++ starting ∷ [];
    }
    else if ltb 0 (length m.spare.lines)
    then record m' {
      flushing = m.spare.lines;
      spare = record m.spare { lines = [] };
      busy = true;
      writers = m.writers ++ starting ∷ [];
    }
    else m'

-- `finalSync`, once no writer runs
unfoldable pub final_sync : DlqFileManager → DlqFileManager
final_sync m =
    if length m.writers == 0 then record m { file_open = false; closer = finished } else m

-- The steps of the calls and of the goroutines. `buffers` is a call of `AppendBatch` that passed its guard
-- at some time before and now has the lock.
pub data Event : Type 0 where
  buffers : (lines : List Line) → Event
  writes : (writer : ℕ) (outcome : PersistOutcome) → Event
  rotates : (second : ℕ) (outcome : RotateOutcome) → Event
  closes : Event

-- `Close`, one step further
unfoldable pub close_step : Closer → DlqFileManager → DlqFileManager
unfolding close close_wait close_flush final_sync
close_step not_called m = close m
close_step rotation_wait m = close_wait m
close_step lock_wait m = close_flush m
close_step writer_wait m = final_sync m
close_step finished m = m

unfoldable pub step : (ℕ → ℕ) → (Line → ℕ) → DlqFileManager → Event → DlqFileManager
unfolding buffer_lines write do_rotate close_step
step grown width m (buffers lines) = buffer_lines grown lines m
step grown width m (writes writer outcome) = write width writer outcome m
step grown width m (rotates second outcome) =
    if m.is_rotating then do_rotate width second outcome m else m
step grown width m closes = close_step m.closer m

unfoldable pub run : (ℕ → ℕ) → (Line → ℕ) → DlqFileManager → List Event → DlqFileManager
unfolding step
run grown width m [] = m
run grown width m (e ∷ es) = run grown width (step grown width m e) es
