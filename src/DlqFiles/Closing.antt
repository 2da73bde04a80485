-- ===== src/DlqFiles/Closing.antt =====
-- internal/cluster/dlq.go: what Close brings to the files.
use mathlib.Core.List.{append_assoc, append-nil}
use cue.Base.{
  ℕ, ◌≡◌, inl, inr, refl, sym, ap, subst, ◌∙◌, true, false, List, [], ◌∷◌, All, length, ltb, ◌==◌,
  arith,
}
use cue.DlqFiles.{
  Line, DlqFileManager, starting, holding, not_called, lock_wait, writer_wait, splice,
  read_flushing, persist_lines, count_bytes, write_succeeded, chain_due, chain_flush, write_step,
  write, close, close_wait, close_flush, final_sync, close_step, step, run, Event, writes, closes,
  all_written,
}
use cue.DlqFiles.Writers.{OneWorker}
use cue.DlqFiles.Contents.{IsOrderly, Working, all_lines, file_lines, sealed_lines}
use cue.DlqFiles.Closed.{IsOther, run-Keeps}

close_flush-busy :
    (m : DlqFileManager) → m.busy ≡ true → close_flush m ≡ record m { closer = writer_wait }
unfolding close_flush
close_flush-busy m b = rw b refl

-- Let the call of Close get the lock while a flush is under way. Whatever the goroutines and Close do
-- then, in any order and with any outcome, the active buffer stays as it is: its lines are not handed
-- to a goroutine, as long as no call of AppendBatch that passed its guard before gets the lock too.
pub close-busy :
    (grown : ℕ → ℕ) (width : Line → ℕ) (m : DlqFileManager) (es : List Event)
    → m.is_closed ≡ true
    → m.closer ≡ lock_wait
    → m.busy ≡ true
    → All IsOther es
    → (run grown width m (closes ∷ es)).active ≡ m.active
unfolding run step close_step
close-busy grown width m es c l b os =
    ap (λ x. (run grown width (close_step x m) es).active) l
    ∙ (ap (λ x. (run grown width x es).active) (close_flush-busy m b)
        ∙ run-Keeps grown width (record m { closer = writer_wait }) es c refl os)

-- The steps of a call of Close, with those of the goroutine that it starts.
abbrev pub closing : List Event
closing =
    closes
    ∷ closes
    ∷ closes
    ∷ writes 0 all_written
    ∷ writes 0 all_written
    ∷ writes 0 all_written
    ∷ writes 0 all_written
    ∷ writes 0 all_written
    ∷ closes
    ∷ []

-- A manager at rest, with these lines in its active buffer.
abbrev at_rest : DlqFileManager → List Line → DlqFileManager
at_rest m lines = record m {
  is_rotating = false;
  active = record m.active { lines = lines };
  spare = record m.spare { lines = [] };
  flushing = [];
  busy = false;
  file_open = true;
  writers = [];
  closer = not_called;
}

-- Close has the lock, its goroutine is started, and it has read its batch.
abbrev locked : DlqFileManager → List Line → DlqFileManager
locked m lines = record (at_rest m lines) { is_closed = true; closer = lock_wait }

abbrev started : DlqFileManager → List Line → DlqFileManager
started m lines = record (locked m []) {
  closer = writer_wait;
  flushing = lines;
  busy = true;
  writers = starting ∷ [];
}

close_flush-lines :
    (m : DlqFileManager) (l : Line) (ls : List Line)
    → close_flush (locked m (l ∷ ls)) ≡ started m (l ∷ ls)
unfolding close_flush
close_flush-lines m l ls =
    let some_lines : ltb 0 (length (l ∷ ls)) ≡ true = ground arith in rw some_lines refl

read_flushing-lines :
    (m : DlqFileManager) (l : Line) (ls : List Line)
    → read_flushing 0 (started m (l ∷ ls))
      ≡ record (started m (l ∷ ls)) { writers = holding (l ∷ ls) ∷ [] }
unfolding read_flushing splice
read_flushing-lines m l ls =
    let some_lines : (length (l ∷ ls) == 0) ≡ false = ground arith in rw some_lines refl

-- The steps of the goroutine, once it has read its batch.
close-holding :
    (grown : ℕ → ℕ) (width : Line → ℕ) (m : DlqFileManager) (lines : List Line)
    → file_lines (
        run grown width
          (record (started m lines) { writers = holding lines ∷ [] })
          (writes 0 all_written
            ∷ writes 0 all_written
            ∷ writes 0 all_written
            ∷ writes 0 all_written
            ∷ closes
            ∷ []))
      ≡ all_lines (at_rest m lines)
unfolding run write write_step persist_lines count_bytes write_succeeded chain_flush chain_due
    close_step final_sync splice
close-holding grown width m lines = sym (append_assoc (sealed_lines m.sealed_files) m.current lines)

close-at_rest :
    (grown : ℕ → ℕ) (width : Line → ℕ) (m : DlqFileManager) (lines : List Line)
    → file_lines (run grown width (at_rest m lines) closing) ≡ all_lines (at_rest m lines)
unfolding run write write_step close_step close close_wait close_flush final_sync
close-at_rest grown width m [] = sym (append-nil (file_lines m))
close-at_rest grown width m (l ∷ ls) =
    let later =
      writes 0 all_written
      ∷ writes 0 all_written
      ∷ writes 0 all_written
      ∷ writes 0 all_written
      ∷ closes
      ∷ [] in
    ap (λ x. file_lines (run grown width x (writes 0 all_written ∷ later)))
      (close_flush-lines m l ls)
    ∙ (ap (λ x. file_lines (run grown width x later)) (read_flushing-lines m l ls)
        ∙ close-holding grown width m (l ∷ ls))

flushing_none :
    (m : DlqFileManager) → Working m → m.writers ≡ [] → (m.busy ≡ false) × (m.flushing ≡ [])
flushing_none m (inl (b, (f, h))) w = (b, f)
flushing_none m (inr (b, one)) w = absurd (subst (OneWorker m.flushing) w one)

-- A manager at rest has the state of one.
is_at_rest :
    (m : DlqFileManager)
    → IsOrderly m
    → m.writers ≡ []
    → m.closer ≡ not_called
    → m.is_rotating ≡ false
    → m.file_open ≡ true
    → m ≡ at_rest m m.active.lines
is_at_rest m (s, o) w c r f =
    let (b, g) = flushing_none m o w in
    ap (λ x. record m { is_rotating = x }) r
    ∙ (ap (λ x. record m { is_rotating = false; spare = record m.spare { lines = x } }) s
        ∙ (ap
              (λ x. record m {
                is_rotating = false;
                spare = record m.spare { lines = [] };
                flushing = x;
              })
              g
            ∙ (ap
                  (λ x. record m {
                    is_rotating = false;
                    spare = record m.spare { lines = [] };
                    flushing = [];
                    busy = x;
                  })
                  b
                ∙ (ap
                      (λ x. record m {
                        is_rotating = false;
                        spare = record m.spare { lines = [] };
                        flushing = [];
                        busy = false;
                        file_open = x;
                      })
                      f
                    ∙ (ap
                          (λ x. record m {
                            is_rotating = false;
                            spare = record m.spare { lines = [] };
                            flushing = [];
                            busy = false;
                            file_open = true;
                            writers = x;
                          })
                          w
                        ∙ ap
                            (λ x. record m {
                              is_rotating = false;
                              spare = record m.spare { lines = [] };
                              flushing = [];
                              busy = false;
                              file_open = true;
                              writers = [];
                              closer = x;
                            })
                            c)))))

-- Let Close be called for the first time on a manager with an empty spare buffer and an open file, while
-- no goroutine of write runs and no rotation is under way. After its steps and those of the goroutine
-- that it starts, if that writes without an error and nothing else comes between, the files hold all
-- the lines.
pub close-idle :
    (grown : ℕ → ℕ) (width : Line → ℕ) (m : DlqFileManager)
    → IsOrderly m
    → m.writers ≡ []
    → m.closer ≡ not_called
    → m.is_rotating ≡ false
    → m.file_open ≡ true
    → file_lines (run grown width m closing) ≡ all_lines m
close-idle grown width m o w c r f =
    let e = is_at_rest m o w c r f in
    ap (λ x. file_lines (run grown width x closing)) e
    ∙ (close-at_rest grown width m m.active.lines ∙ ap all_lines (sym e))
