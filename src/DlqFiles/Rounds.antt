-- ===== src/DlqFiles/Rounds.antt =====
-- internal/cluster/dlq.go: the lines in the steps of a goroutine of write.
use mathlib.Core.List.{append_assoc, append-nil}
use cue.Base.{
  ℕ, ◌≡◌, inl, inr, refl, sym, ap, subst, ◌∙◌, Bool, true, false, ◌&&◌, Bool-cases, List, [], ◌∷◌,
  ◌++◌, Option, none, some, get_elem?, if◌then◌else◌, length, ◌==◌, arith,
}
use cue.DlqFiles.{
  Line, DlqFileManager, Writer, starting, holding, failed, synced, written, chaining, becomes,
  read_flushing, persist_lines, count_bytes, write_succeeded, chain_due, chain_flush, write_step,
  write, all_written, total_width, splice,
}
use cue.DlqFiles.Writers.{
  Fits, Alone, on_way, is_settled, is_working, on_way-Idle, Idle-leave, OneWorker-leave,
  Idle-working, OneWorker-working, Alone-next, Alone-end,
}
use cue.DlqFiles.Contents.{
  sealed_lines, file_lines, all_lines, Working, IsOrderly, Takes, trigger_flush-Takes, busy_false,
  unchanged-Takes, empty_of,
}

-- The lines that are on their way change by what the file got.
same_lines :
    (files files' way way' active : List Line)
    → files' ++ way' ≡ files ++ way
    → files' ++ (way' ++ active) ≡ (files ++ (way ++ active)) ++ []
same_lines files files' way way' active e =
    sym (append_assoc files' way' active)
    ∙ (ap (λ l. l ++ active) e
        ∙ (append_assoc files way active ∙ sym (append-nil (files ++ (way ++ active)))))

-- A goroutine that works has the batch, and no other does.
module _ (m : DlqFileManager) (i : ℕ) (s : m.spare.lines ≡ []) (o : Working m) where
  one_of :
      (w : Writer)
      → get_elem? m.writers i ≡ some w
      → is_working w ≡ true
      → (m.busy ≡ true)
        × (Fits m.flushing w
            × ((on_way m.writers m.flushing ≡ (if is_settled w then [] else m.flushing))
                × Alone i m.writers))
  one_of w e k = elim o [
    | inl (b, (f, h)) ↦ absurd (Idle-working i m.writers w e k h)
    | inr (b, one) ↦ (b, OneWorker-working i m.writers w m.flushing e k one)
  ]

  read_flushing-Takes : get_elem? m.writers i ≡ some starting → Takes [] m (read_flushing i m)
  unfolding read_flushing
  read_flushing-Takes e =
      let (b, (fits, (way, alone))) = one_of starting e refl in
      elim (Bool-cases (length m.flushing == 0)) [
        | inl t ↦
            let idle = Alone-end i m.writers [] alone (inl refl) in
            let f = empty_of m.flushing t in
            rw t (
              (s, inl (refl, (f, idle))),
              same_lines (file_lines m) (file_lines m) _ _ m.active.lines (
                  ap (λ l. file_lines m ++ l)
                    (on_way-Idle (splice i [] m.writers) m.flushing idle ∙ sym way)),
            )
        | inr t ↦
            let (one, way') =
              Alone-next i m.writers starting (holding m.flushing) m.flushing e alone refl in
            rw t (
              (s, inr (b, one)),
              same_lines (file_lines m) (file_lines m) _ _ m.active.lines
                  (ap (λ l. file_lines m ++ l) (way' ∙ sym way)),
            )
      ]

  persist_lines-Takes :
      (width : Line → ℕ) (batch : List Line)
      → get_elem? m.writers i ≡ some (holding batch)
      → m.file_open ≡ true
      → Takes [] m (persist_lines width i batch all_written m)
  unfolding persist_lines
  persist_lines-Takes width batch e opened =
      let (b, (fits, (way, alone))) = one_of (holding batch) e refl in
      let size = total_width width batch in
      let (one, way') =
        Alone-next i m.writers (holding batch) (synced size) m.flushing e alone tt in
      let sealed = sealed_lines m.sealed_files in
      rw opened (
        (s, inr (b, one)),
        same_lines (file_lines m) (sealed ++ (m.current ++ batch)) _ _ m.active.lines (
            rw (way', way, append-nil (sealed ++ (m.current ++ batch)), fits)
              (sym (append_assoc sealed m.current m.flushing))),
      )

  count_bytes-Takes :
      (size : ℕ) → get_elem? m.writers i ≡ some (synced size) → Takes [] m (count_bytes i size m)
  unfolding count_bytes
  count_bytes-Takes size e =
      let (b, (fits, (way, alone))) = one_of (synced size) e refl in
      let (one, way') = Alone-next i m.writers (synced size) written m.flushing e alone tt in
      (
        (s, inr (b, one)),
        same_lines (file_lines m) (file_lines m) _ _ m.active.lines
            (ap (λ l. file_lines m ++ l) (way' ∙ sym way)),
      )

  write_succeeded-Takes : get_elem? m.writers i ≡ some written → Takes [] m (write_succeeded i m)
  unfolding write_succeeded
  write_succeeded-Takes e =
      let (b, (fits, (way, alone))) = one_of written e refl in
      let idle = Alone-end i m.writers (chaining ∷ []) alone (inr refl) in
      (
        (s, inl (refl, (refl, idle))),
        same_lines (file_lines m) (file_lines m) _ _ m.active.lines (
            ap (λ l. file_lines m ++ l)
              (on_way-Idle (splice i (chaining ∷ []) m.writers) [] idle ∙ sym way)),
      )

  leave-Takes : get_elem? m.writers i ≡ some chaining → Takes [] m (becomes i [] m)
  leave-Takes e = elim o [
    | inl (b, (f, h)) ↦
        let idle = Idle-leave i m.writers e h in
        (
          (s, inl (b, (f, idle))),
          same_lines (file_lines m) (file_lines m) _ _ m.active.lines (
              ap (λ l. file_lines m ++ l)
                (on_way-Idle (splice i [] m.writers) m.flushing idle
                  ∙ sym (on_way-Idle m.writers m.flushing h))),
        )
    | inr (b, one) ↦
        let (one', way) = OneWorker-leave i m.writers m.flushing e one in
        (
          (s, inr (b, one')),
          same_lines (file_lines m) (file_lines m) _ _ m.active.lines
              (ap (λ l. file_lines m ++ l) way),
        )
  ]

  chain_flush-Takes :
      get_elem? m.writers i ≡ some chaining
      → (chain_due m && m.busy) ≡ false
      → Takes [] m (chain_flush i m)
  unfolding chain_flush
  chain_flush-Takes e q =
      let m' = becomes i [] m in
      let ((s', o'), same) = leave-Takes e in
      elim (Bool-cases (chain_due m)) [
        | inl t ↦
            let idle : m.busy ≡ false = ground (arith, t, q) in
            let (f, h) = busy_false m' o' idle in
            let (o'', more) = trigger_flush-Takes m' s' idle f h in
            rw t (o'', more ∙ (append-nil (all_lines m') ∙ same))
        | inr t ↦ rw t ((s', o'), same)
      ]

-- The goroutine at the place is before its chained flush, which finds the active buffer full while
-- another flush is under way.
abbrev pub is_before_chain : Option Writer → Bool
is_before_chain none = false
is_before_chain (some starting) = false
is_before_chain (some (holding batch)) = false
is_before_chain (some failed) = false
is_before_chain (some (synced size)) = false
is_before_chain (some written) = false
is_before_chain (some chaining) = true

abbrev pub overtakes : ℕ → DlqFileManager → Bool
overtakes i m = is_before_chain (get_elem? m.writers i) && (chain_due m && m.busy)

write_step-Takes :
    (width : Line → ℕ) (i : ℕ) (w : Writer) (m : DlqFileManager)
    → IsOrderly m
    → m.file_open ≡ true
    → get_elem? m.writers i ≡ some w
    → (is_before_chain (some w) && (chain_due m && m.busy)) ≡ false
    → Takes [] m (write_step width i all_written w m)
unfolding write_step
write_step-Takes width i starting m (s, o) opened e q = read_flushing-Takes m i s o e
write_step-Takes width i (holding batch) m (s, o) opened e q =
    persist_lines-Takes m i s o width batch e opened
write_step-Takes width i failed m (s, o) opened e q = absurd (one_of m i s o failed e refl).1.0
write_step-Takes width i (synced size) m (s, o) opened e q = count_bytes-Takes m i s o size e
write_step-Takes width i written m (s, o) opened e q = write_succeeded-Takes m i s o e
write_step-Takes width i chaining m (s, o) opened e q = chain_flush-Takes m i s o e q

pub write-Takes :
    (width : Line → ℕ) (i : ℕ) (m : DlqFileManager)
    → IsOrderly m
    → m.file_open ≡ true
    → overtakes i m ≡ false
    → Takes [] m (write width i all_written m)
unfolding write
write-Takes width i m o opened q = at (get_elem? m.writers i) refl
  where
    at :
        (x : Option Writer)
        → get_elem? m.writers i ≡ x
        → Takes [] m (elim x as (λ _. DlqFileManager) [
          | none ↦ m
          | some w ↦ write_step width i all_written w m
        ])
    at none e = unchanged-Takes m o
    at (some w) e =
        write_step-Takes width i w m o opened e
          (subst (λ x. (is_before_chain x && (chain_due m && m.busy)) ≡ false) e q)
