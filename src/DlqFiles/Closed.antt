-- ===== src/DlqFiles/Closed.antt =====
-- internal/cluster/dlq.go: what stays in memory once Close had the lock.
use cue.Base.{
  ℕ, ◌≡◌, refl, sym, subst, ◌∙◌, Bool, true, false, not, ◌&&◌, ◌||◌, List, [], ◌∷◌, ◌++◌, none,
  some, get_elem?, take, All, if◌then◌else◌, length, leb, ◌==◌,
}
use cue.DlqFiles.{
  Line, DlqFileManager, Writer, starting, holding, failed, synced, written, chaining, Closer,
  not_called, rotation_wait, lock_wait, writer_wait, finished, becomes, read_flushing,
  persist_lines, count_bytes, write_failed, write_succeeded, chain_due, chain_flush, write_step,
  write, do_rotate, final_sync, close_step, step, run, Event, buffers, writes, rotates, closes,
  all_written, failed_after, moved, moved_back, not_moved, PersistOutcome, RotateOutcome,
  open_current_file, seal, total_width,
}
use cue.DlqFiles.Conservation.{is_early}

-- A manager whose Close had the lock leaves the lines in its active buffer.
abbrev Keeps : DlqFileManager → DlqFileManager → Type 0
Keeps m m' = (m'.is_closed ≡ true) × ((is_early m'.closer ≡ false) × (m'.active ≡ m.active))

if-Keeps :
    (b : Bool) (m x y : DlqFileManager) → Keeps m x → Keeps m y → Keeps m (if b then x else y)
if-Keeps true m x y h k = h
if-Keeps false m x y h k = k

not_due {ℓ} :
    {A : Type ℓ} (closed full : Bool) (x y : A)
    → closed ≡ true
    → (if not closed && full then x else y) ≡ y
not_due closed full x y h = rw h refl

-- Once closed, a write is not followed by a chained flush.
chain_flush-closed :
    (i : ℕ) (m : DlqFileManager) → m.is_closed ≡ true → chain_flush i m ≡ becomes i [] m
unfolding chain_flush chain_due
chain_flush-closed i m c =
    not_due m.is_closed (leb m.active.capacity (length m.active.lines)) _ (becomes i [] m) c

write_step-Keeps :
    (width : Line → ℕ) (i : ℕ) (outcome : PersistOutcome) (w : Writer) (m : DlqFileManager)
    → m.is_closed ≡ true
    → is_early m.closer ≡ false
    → Keeps m (write_step width i outcome w m)
unfolding write_step read_flushing persist_lines write_failed count_bytes write_succeeded
write_step-Keeps width i outcome starting m c d =
    if-Keeps (length m.flushing == 0) m (becomes i [] (record m { busy = false }))
      (becomes i (holding m.flushing ∷ []) m) (c, (d, refl)) (c, (d, refl))
write_step-Keeps width i all_written (holding batch) m c d =
    if-Keeps (not m.file_open) m (becomes i (failed ∷ []) m)
      (becomes i (synced (total_width width batch) ∷ [])
        (record m { current = m.current ++ batch }))
      (c, (d, refl)) (c, (d, refl))
write_step-Keeps width i (failed_after n) (holding batch) m c d =
    if-Keeps (not m.file_open) m (becomes i (failed ∷ []) m)
      (becomes i (failed ∷ []) (record m { current = m.current ++ take n batch })) (c, (d, refl))
      (c, (d, refl))
write_step-Keeps width i outcome failed m c d =
    if-Keeps m.is_closed m (becomes i [] (record m { busy = false })) (becomes i (starting ∷ []) m)
      (c, (d, refl)) (c, (d, refl))
write_step-Keeps width i outcome (synced size) m c d = (c, (d, refl))
write_step-Keeps width i outcome written m c d = (c, (d, refl))
write_step-Keeps width i outcome chaining m c d =
    subst (Keeps m) (sym (chain_flush-closed i m c)) (c, (d, refl))

write-Keeps :
    (width : Line → ℕ) (i : ℕ) (outcome : PersistOutcome) (m : DlqFileManager)
    → m.is_closed ≡ true
    → is_early m.closer ≡ false
    → Keeps m (write width i outcome m)
unfolding write
write-Keeps width i outcome m c d =
    elim (get_elem? m.writers i)
      as (λ x.
        Keeps m (elim x as (λ _. DlqFileManager) [
          | none ↦ m
          | some w ↦ write_step width i outcome w m
        ])) [ none ↦ (c, (d, refl)) | some w ↦ write_step-Keeps width i outcome w m c d ]

do_rotate-Keeps :
    (width : Line → ℕ) (second : ℕ) (outcome : RotateOutcome) (m : DlqFileManager)
    → m.is_closed ≡ true
    → is_early m.closer ≡ false
    → Keeps m (do_rotate width second outcome m)
unfolding do_rotate open_current_file
do_rotate-Keeps width second not_moved m c d =
    if-Keeps (leb m.file_size m.max_size_bytes || not m.file_open) m
      (record m { is_rotating = false })
      (open_current_file width (record m { is_rotating = false })) (c, (d, refl)) (c, (d, refl))
do_rotate-Keeps width second moved_back m c d =
    if-Keeps (leb m.file_size m.max_size_bytes || not m.file_open) m
      (record m { is_rotating = false })
      (open_current_file width (record m { is_rotating = false })) (c, (d, refl)) (c, (d, refl))
do_rotate-Keeps width second moved m c d =
    if-Keeps (leb m.file_size m.max_size_bytes || not m.file_open) m
      (record m { is_rotating = false })
      (record (open_current_file width (record m {
        is_rotating = false;
        current = [];
        sealed_files = seal second m.current m.sealed_files;
      })) { file_size = 0 })
      (c, (d, refl)) (c, (d, refl))

close_step-Keeps :
    (x : Closer) (m : DlqFileManager)
    → m.is_closed ≡ true
    → is_early m.closer ≡ false
    → is_early x ≡ false
    → Keeps m (close_step x m)
unfolding close_step final_sync
close_step-Keeps not_called m c d e = absurd cc
close_step-Keeps rotation_wait m c d e = absurd cc
close_step-Keeps lock_wait m c d e = absurd cc
close_step-Keeps writer_wait m c d e =
    if-Keeps (length m.writers == 0) m (record m { file_open = false; closer = finished }) m
      (c, (refl, refl)) (c, (d, refl))
close_step-Keeps finished m c d e = (c, (d, refl))

-- Any step but one of AppendBatch.
abbrev pub IsOther : Event → Type 0
IsOther (buffers lines) = ⊥
IsOther (writes writer outcome) = Unit
IsOther (rotates second outcome) = Unit
IsOther closes = Unit

step-Keeps :
    (grown : ℕ → ℕ) (width : Line → ℕ) (m : DlqFileManager) (e : Event)
    → m.is_closed ≡ true
    → is_early m.closer ≡ false
    → IsOther e
    → Keeps m (step grown width m e)
unfolding step
step-Keeps grown width m (buffers lines) c d o = absurd o
step-Keeps grown width m (writes writer outcome) c d o = write-Keeps width writer outcome m c d
step-Keeps grown width m (rotates second outcome) c d o =
    if-Keeps m.is_rotating m (do_rotate width second outcome m) m
      (do_rotate-Keeps width second outcome m c d) (c, (d, refl))
step-Keeps grown width m closes c d o = close_step-Keeps m.closer m c d d

pub run-Keeps :
    (grown : ℕ → ℕ) (width : Line → ℕ) (m : DlqFileManager) (es : List Event)
    → m.is_closed ≡ true
    → is_early m.closer ≡ false
    → All IsOther es
    → (run grown width m es).active ≡ m.active
unfolding run
run-Keeps grown width m [] c d o = refl
run-Keeps grown width m (e ∷ es) c d (o, os) =
    let (c', (d', a)) = step-Keeps grown width m e c d o in
    run-Keeps grown width (step grown width m e) es c' d' os ∙ a
