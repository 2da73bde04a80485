-- ===== src/DlqFiles/Conservation.antt =====
-- internal/cluster/dlq.go: where the lines are that AppendBatch took.
use mathlib.Core.List.{append_assoc, append-nil}
use cue.Base.{
  ℕ, ◌≡◌, inl, inr, refl, sym, ap, ◌∙◌, Bool, true, false, not, ◌||◌, Bool-cases, List, [], ◌∷◌,
  ◌++◌, All, if◌then◌else◌, length, ltb, leb, ◌==◌, arith,
}
use cue.DlqFiles.{
  Line, DlqFileManager, Closer, not_called, rotation_wait, lock_wait, writer_wait, finished, seal,
  do_rotate, close, close_wait, close_flush, final_sync, close_step, step, run, Event, buffers,
  writes, rotates, closes, all_written, failed_after, moved, moved_back, not_moved,
  open_current_file,
}
use cue.DlqFiles.Writers.{OneWorker-start, on_way-start}
use cue.DlqFiles.Contents.{
  sealed_lines, file_lines, all_lines, IsOrderly, Takes, moved_lines, way_of, busy_false,
  buffer_lines-Takes, unchanged-Takes,
}
use cue.DlqFiles.Rounds.{overtakes, write-Takes}

-- A sealed file of a new name.
seal-new :
    (second : ℕ) (content : List Line) (fs : List (ℕ × List Line))
    → All (λ f. (f.0 == second) ≡ false) fs
    → sealed_lines (seal second content fs) ≡ sealed_lines fs ++ content
unfolding seal
seal-new second content [] h = append-nil content
seal-new second content (f ∷ fs) (h, hs) = rw h (
    ap (λ l. f.1 ++ l) (seal-new second content fs hs)
    ∙ sym (append_assoc f.1 (sealed_lines fs) content))

do_rotate-Takes :
    (width : Line → ℕ) (second : ℕ) (m : DlqFileManager)
    → IsOrderly m
    → All (λ f. (f.0 == second) ≡ false) m.sealed_files
    → Takes [] m (do_rotate width second moved m)
unfolding do_rotate open_current_file
do_rotate-Takes width second m (s, o) new =
    elim (Bool-cases (leb m.file_size m.max_size_bytes || not m.file_open)) [
      | inl t ↦ rw t ((s, o), sym (append-nil (all_lines m)))
      | inr t ↦ rw t (
        (s, o),
        rw
            (
              append-nil (all_lines m),
              append-nil (sealed_lines (seal second m.current m.sealed_files)),
              seal-new second m.current m.sealed_files new,
            )
            refl,
      )
    ]

close_flush-Takes : (m : DlqFileManager) → IsOrderly m → Takes [] m (close_flush m)
unfolding close_flush
close_flush-Takes m (s, o) =
    let same = sym (append-nil (all_lines m)) in
    elim (Bool-cases (m.busy || ltb 0 (length m.flushing))) [
      | inl t ↦ rw t ((s, o), same)
      | inr t ↦
          let (f, h) = busy_false m o (ground (arith, t)) in
          rw t (elim (Bool-cases (ltb 0 (length m.active.lines))) [
            | inl c ↦ rw c (
              (s, inr (refl, OneWorker-start m.writers m.active.lines h)),
              moved_lines (file_lines m) _ _ m.active.lines []
                  (on_way-start m.writers m.active.lines h) (way_of m f h) refl,
            )
            | inr c ↦ rw c (elim (Bool-cases (ltb 0 (length m.spare.lines))) [
              | inl d ↦ absurd (ground (arith, d, ap length s))
              | inr d ↦ rw d ((s, o), same)
            ])
          ])
    ]

-- A step that may be taken or not.
either-Takes :
    (b : Bool) (m x y : DlqFileManager)
    → Takes [] m x
    → Takes [] m y
    → Takes [] m (if b then x else y)
either-Takes true m x y h k = h
either-Takes false m x y h k = k

close_step-Takes : (c : Closer) (m : DlqFileManager) → IsOrderly m → Takes [] m (close_step c m)
unfolding close_step close close_wait final_sync
close_step-Takes not_called m o = unchanged-Takes m o
close_step-Takes rotation_wait m o =
    either-Takes m.is_rotating m m (record m { closer = lock_wait }) (unchanged-Takes m o)
      (unchanged-Takes m o)
close_step-Takes lock_wait m o = close_flush-Takes m o
close_step-Takes writer_wait m o =
    either-Takes (length m.writers == 0) m (record m { file_open = false; closer = finished }) m
      (unchanged-Takes m o) (unchanged-Takes m o)
close_step-Takes finished m o = unchanged-Takes m o

-- Close has not had the lock.
abbrev pub is_early : Closer → Bool
is_early not_called = true
is_early rotation_wait = true
is_early lock_wait = true
is_early writer_wait = false
is_early finished = false

-- An event that goes well: AppendBatch gets the lock before Close, a write does not fail, the chained
-- flush does not overtake a flush, and a rotation seals to a new name.
abbrev pub Smooth : DlqFileManager → Event → Type 0
Smooth m (buffers lines) = is_early m.closer ≡ true
Smooth m (writes writer all_written) = (m.file_open ≡ true) × (overtakes writer m ≡ false)
Smooth m (writes writer (failed_after n)) = ⊥
Smooth m (rotates second moved) = All (λ f. (f.0 == second) ≡ false) m.sealed_files
Smooth m (rotates second not_moved) = ⊥
Smooth m (rotates second moved_back) = ⊥
Smooth m closes = Unit

-- The lines that an event hands over.
abbrev pub handed : Event → List Line
handed (buffers lines) = lines
handed (writes writer outcome) = []
handed (rotates second outcome) = []
handed closes = []

step-Takes :
    (grown : ℕ → ℕ) (width : Line → ℕ) (m : DlqFileManager) (e : Event)
    → IsOrderly m
    → Smooth m e
    → Takes (handed e) m (step grown width m e)
unfolding step
step-Takes grown width m (buffers lines) o h = buffer_lines-Takes grown lines m o
step-Takes grown width m (writes writer all_written) o (opened, q) =
    write-Takes width writer m o opened q
step-Takes grown width m (writes writer (failed_after n)) o h = absurd h
step-Takes grown width m (rotates second moved) o h =
    either-Takes m.is_rotating m (do_rotate width second moved m) m
      (do_rotate-Takes width second m o h) (unchanged-Takes m o)
step-Takes grown width m (rotates second not_moved) o h = absurd h
step-Takes grown width m (rotates second moved_back) o h = absurd h
step-Takes grown width m closes o h = close_step-Takes m.closer m o

-- All the events of a run go well.
abbrev pub SmoothRun : (ℕ → ℕ) → (Line → ℕ) → DlqFileManager → List Event → Type 0
SmoothRun grown width m [] = Unit
SmoothRun grown width m (e ∷ es) = Smooth m e × SmoothRun grown width (step grown width m e) es

abbrev pub handed_over : List Event → List Line
handed_over [] = []
handed_over (e ∷ es) = handed e ++ handed_over es

-- Let the spare buffer be empty, and let a batch be on its way only while one goroutine of write works on
-- it. Let the calls of AppendBatch get the lock before Close does, no write fail, no sealed file be
-- replaced, and no chained flush come while another flush is under way. Then, in any order of the steps
-- of AppendBatch, write, doRotate and Close, this stays so, and the lines in the sealed files, the
-- current file, the batch on its way and the active buffer are, in this order, the lines that were there
-- before and then those that the calls of AppendBatch handed over: none is lost, doubled or moved.
pub run-Takes :
    (grown : ℕ → ℕ) (width : Line → ℕ) (m : DlqFileManager) (es : List Event)
    → IsOrderly m
    → SmoothRun grown width m es
    → Takes (handed_over es) m (run grown width m es)
unfolding run
run-Takes grown width m [] o h = unchanged-Takes m o
run-Takes grown width m (e ∷ es) o (h, hs) =
    let (o', taken) = step-Takes grown width m e o h in
    let (o'', more) = run-Takes grown width (step grown width m e) es o' hs in
    (o'', more ∙ rw taken (append_assoc (all_lines m) (handed e) (handed_over es)))
