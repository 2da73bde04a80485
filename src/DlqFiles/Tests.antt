-- ===== src/DlqFiles/Tests.antt =====
-- internal/cluster/dlq.go: the theorems, applied to a manager with a few lines.
use cue.Base.{String, ℕ, ◌*◌, ◌≡◌, refl, inl, true, false, List, [], ◌∷◌}
use cue.Base.Int.{pos}
use cue.DlqFiles.{
  Line, DlqFileManager, Event, buffers, writes, rotates, closes, all_written, moved, run, chain_due,
  splice, starting, holding, chaining, not_called, lock_wait,
}
use cue.DlqFiles.Contents.{Takes, file_lines, all_lines}
use cue.DlqFiles.Conservation.{handed_over, run-Takes}
use cue.DlqFiles.Closing.{closing, close-busy, close-idle}

abbrev line : String → Line
line id = record { timestamp = pos 5; topic = "mail"; job_id = id }

-- A full slice gets twice its capacity; a line has ten bytes; a file may have fifteen.
abbrev doubled : ℕ → ℕ
doubled n = n * 2

abbrev ten : Line → ℕ
ten l = 10

-- An active buffer with room for two lines.
abbrev small : DlqFileManager
small = record {
  max_size_bytes = 15;
  is_rotating = false;
  is_closed = false;
  active = record { lines = line "a" ∷ []; capacity = 2 };
  spare = record { lines = []; capacity = 2 };
  flushing = [];
  busy = false;
  file_open = true;
  current = [];
  file_size = 0;
  sealed_files = [];
  writers = [];
  closer = not_called;
}

-- A goroutine has read its batch, and Close waits for the lock.
abbrev writing : DlqFileManager
writing = record small {
  is_closed = true;
  busy = true;
  flushing = line "b" ∷ [];
  writers = holding (line "b" ∷ []) ∷ [];
  closer = lock_wait;
}

-- The second line starts a flush, the third comes during the write, and the file is rotated before the
-- goroutine ends.
abbrev events : List Event
events =
    buffers (line "b" ∷ [])
    ∷ writes 0 all_written
    ∷ buffers (line "c" ∷ [])
    ∷ writes 0 all_written
    ∷ writes 0 all_written
    ∷ writes 0 all_written
    ∷ rotates 7 moved
    ∷ writes 0 all_written
    ∷ []

rotated_once : (run doubled ten small events).sealed_files ≡ (7, line "a" ∷ line "b" ∷ []) ∷ []
unfolding run splice
rotated_once = refl

-- The chained flush of the first goroutine comes after AppendBatch has started another flush and filled
-- the buffer again: the batch of the second is replaced before it is read.
abbrev overtaken : DlqFileManager
overtaken = record small {
  active = record { lines = line "c" ∷ line "d" ∷ []; capacity = 2 };
  busy = true;
  flushing = line "b" ∷ [];
  writers = chaining ∷ starting ∷ [];
}

batch_lost :
    all_lines (run doubled ten overtaken (writes 0 all_written ∷ [])) ≡ line "c" ∷ line "d" ∷ []
unfolding run splice
batch_lost = refl

run-Takes_example : Takes (handed_over events) small (run doubled ten small events)
unfolding run chain_due splice
run-Takes_example =
    run-Takes doubled ten small events (refl, inl (refl, (refl, tt)))
      (
        refl,
        (
          (refl, refl),
          (refl, ((refl, refl), ((refl, refl), ((refl, refl), (tt, ((refl, refl), tt)))))),
        ),
      )

close-busy_example :
    (run doubled ten writing (closes ∷ writes 0 all_written ∷ closes ∷ [])).active ≡ writing.active
close-busy_example =
    close-busy doubled ten writing (writes 0 all_written ∷ closes ∷ []) refl refl refl
      (tt, (tt, tt))

close-idle_example : file_lines (run doubled ten small closing) ≡ all_lines small
close-idle_example = close-idle doubled ten small (refl, inl (refl, (refl, tt))) refl refl refl refl
