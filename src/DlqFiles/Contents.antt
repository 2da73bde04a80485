-- ===== src/DlqFiles/Contents.antt =====
-- internal/cluster/dlq.go: the lines in the files and in memory, and how a flush moves them.
use mathlib.Core.List.{append_assoc, append-nil}
use cue.Base.{
  ℕ, ◌*◌, ◌≡◌, ◌⊎◌, inl, inr, refl, sym, ap, ◌∙◌, true, false, not, ◌&&◌, ◌||◌, Bool-cases, List,
  [], ◌∷◌, ◌++◌, if◌then◌else◌, length, ltb, leb, ◌==◌, arith,
}
use cue.DlqFiles.{Line, Buffer, DlqFileManager, append_lines, grow, trigger_flush, buffer_lines}
use cue.DlqFiles.Writers.{Idle, OneWorker, on_way, on_way-Idle, OneWorker-start, on_way-start}

abbrev pub sealed_lines : List (ℕ × List Line) → List Line
sealed_lines [] = []
sealed_lines (f ∷ fs) = f.1 ++ sealed_lines fs

-- The lines in the files, from the oldest to the newest.
abbrev pub file_lines : DlqFileManager → List Line
file_lines m = sealed_lines m.sealed_files ++ m.current

-- The lines in the files and in memory, in order.
abbrev pub all_lines : DlqFileManager → List Line
all_lines m = file_lines m ++ (on_way m.writers m.flushing ++ m.active.lines)

-- No batch is on its way and no goroutine works; or one works, on the batch that is.
abbrev pub Working : DlqFileManager → Type 0
Working m =
    ((m.busy ≡ false) × ((m.flushing ≡ []) × Idle m.writers))
    ⊎ ((m.busy ≡ true) × OneWorker m.flushing m.writers)

-- The spare buffer is empty, and a batch is on its way only while one goroutine works on it.
abbrev pub IsOrderly : DlqFileManager → Type 0
IsOrderly m = (m.spare.lines ≡ []) × Working m

-- What an operation does that takes these lines.
abbrev pub Takes : List Line → DlqFileManager → DlqFileManager → Type 0
Takes ls m m' = IsOrderly m' × (all_lines m' ≡ all_lines m ++ ls)

lines-append_lines :
    (grown : ℕ → ℕ) (b : Buffer) (ls : List Line) → (append_lines grown b ls).lines ≡ b.lines ++ ls
unfolding append_lines
lines-append_lines grown b [] = sym (append-nil b.lines)
lines-append_lines grown b (l ∷ ls) =
    lines-append_lines grown
      (record {
        lines = b.lines ++ l ∷ [];
        capacity = if ltb (length b.lines) b.capacity then b.capacity else grown b.capacity;
      })
      ls
    ∙ append_assoc b.lines (l ∷ []) ls

-- A batch takes the lines of the active buffer.
pub moved_lines :
    (files way batch active spare : List Line)
    → batch ≡ active
    → way ≡ []
    → spare ≡ []
    → files ++ (batch ++ spare) ≡ (files ++ (way ++ active)) ++ []
moved_lines files way batch active spare b w s =
    rw (b, w, s, append-nil active, append-nil (files ++ active)) refl

pub way_of :
    (m : DlqFileManager) → m.flushing ≡ [] → Idle m.writers → on_way m.writers m.flushing ≡ []
way_of m f h = on_way-Idle m.writers m.flushing h ∙ f

-- A flush moves the lines of the active buffer, which are then in front.
pub trigger_flush-Takes :
    (m : DlqFileManager)
    → m.spare.lines ≡ []
    → m.busy ≡ false
    → m.flushing ≡ []
    → Idle m.writers
    → Takes [] m (trigger_flush m)
unfolding trigger_flush grow
trigger_flush-Takes m s b f h =
    let way = on_way-start m.writers m.active.lines h in
    let one = OneWorker-start m.writers m.active.lines h in
    let none_on_way = way_of m f h in
    let files = file_lines m in
    elim (Bool-cases ((length m.active.lines == 0) || ltb 0 (length m.spare.lines))) [
      | inl t ↦ rw t ((s, inl (b, (f, h))), sym (append-nil (all_lines m)))
      | inr t ↦ rw t (elim (Bool-cases (ltb m.spare.capacity (length m.active.lines * 2))) [
        | inl c ↦
            rw c (
              (refl, inr (refl, one)),
              moved_lines files _ _ m.active.lines [] way none_on_way refl,
            )
        | inr c ↦ rw c (
          (refl, inr (refl, one)),
          moved_lines files _ _ m.active.lines m.spare.lines way none_on_way s,
        )
      ])
    ]

pub busy_false :
    (m : DlqFileManager) → Working m → m.busy ≡ false → (m.flushing ≡ []) × Idle m.writers
busy_false m (inl (b, h)) e = h
busy_false m (inr (b, h)) e = absurd cc

-- AppendBatch with the lock.
pub buffer_lines-Takes :
    (grown : ℕ → ℕ) (ls : List Line) (m : DlqFileManager)
    → IsOrderly m
    → Takes ls m (buffer_lines grown ls m)
unfolding buffer_lines
buffer_lines-Takes grown ls m (s, o) =
    let m' = record m { active = append_lines grown m.active ls } in
    let way = on_way m.writers m.flushing in
    let taken : all_lines m' ≡ all_lines m ++ ls = rw (lines-append_lines grown m.active ls) (
      ap (λ l. file_lines m ++ l) (sym (append_assoc way m.active.lines ls))
      ∙ sym (append_assoc (file_lines m) (way ++ m.active.lines) ls)) in
    elim (Bool-cases (leb m'.active.capacity (length m'.active.lines) && not m.busy)) [
      | inl t ↦
          let idle : m.busy ≡ false = ground (arith, t) in
          let (f, h) = busy_false m o idle in
          let (o', e) = trigger_flush-Takes m' s idle f h in
          rw t (o', e ∙ (append-nil (all_lines m') ∙ taken))
      | inr t ↦ rw t ((s, o), taken)
    ]

pub unchanged-Takes : (m : DlqFileManager) → IsOrderly m → Takes [] m m
unchanged-Takes m o = (o, sym (append-nil (all_lines m)))

pub empty_of {ℓ} : {A : Type ℓ} (xs : List A) → (length xs == 0) ≡ true → xs ≡ []
empty_of [] h = refl
empty_of (x ∷ xs) h = absurd (ground (arith, h))
