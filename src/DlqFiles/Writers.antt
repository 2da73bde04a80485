-- ===== src/DlqFiles/Writers.antt =====
-- internal/cluster/dlq.go: the goroutines of write, of which one at most has a batch.
use cue.Base.{
  ℕ, zero, suc, ◌≡◌, ◌⊎◌, inl, inr, refl, ap, subst, sym, ◌∙◌, Bool, true, false, List, [], ◌∷◌,
  ◌++◌, some, get_elem?, if◌then◌else◌,
}
use cue.DlqFiles.{Line, Writer, starting, holding, failed, synced, written, chaining, splice}

-- The goroutine has a batch or is to read it.
abbrev pub is_working : Writer → Bool
is_working starting = true
is_working (holding batch) = true
is_working failed = true
is_working (synced size) = true
is_working written = true
is_working chaining = false

-- Its batch is in the file.
abbrev pub is_settled : Writer → Bool
is_settled starting = false
is_settled (holding batch) = false
is_settled failed = false
is_settled (synced size) = true
is_settled written = true
is_settled chaining = false

-- The goroutine works on this batch, without an error.
abbrev pub Fits : List Line → Writer → Type 0
Fits flushing starting = Unit
Fits flushing (holding batch) = batch ≡ flushing
Fits flushing failed = ⊥
Fits flushing (synced size) = Unit
Fits flushing written = Unit
Fits flushing chaining = ⊥

-- No goroutine works.
abbrev pub Idle : List Writer → Type 0
Idle [] = Unit
Idle (w ∷ ws) = (is_working w ≡ false) × Idle ws

-- One goroutine works, on this batch.
abbrev pub OneWorker : List Line → List Writer → Type 0
OneWorker flushing [] = ⊥
OneWorker flushing (w ∷ ws) =
    (Fits flushing w × Idle ws) ⊎ ((is_working w ≡ false) × OneWorker flushing ws)

-- What of the batch is still to be written.
abbrev pub on_way : List Writer → List Line → List Line
on_way [] flushing = flushing
on_way (w ∷ ws) flushing = let rest = on_way ws flushing in if is_settled w then [] else rest

unsettled : (w : Writer) → is_working w ≡ false → is_settled w ≡ false
unsettled starting e = refl
unsettled (holding batch) e = refl
unsettled failed e = refl
unsettled (synced size) e = absurd cc
unsettled written e = absurd cc
unsettled chaining e = refl

past_unsettled :
    (w : Writer) (ls : List Line) → is_working w ≡ false → (if is_settled w then [] else ls) ≡ ls
past_unsettled w ls e = rw (unsettled w e) refl

pub on_way-Idle : (ws : List Writer) (f : List Line) → Idle ws → on_way ws f ≡ f
on_way-Idle [] f h = refl
on_way-Idle (w ∷ ws) f (h, hs) = past_unsettled w (on_way ws f) h ∙ on_way-Idle ws f hs

-- A goroutine is started.
pub OneWorker-start :
    (ws : List Writer) (f : List Line) → Idle ws → OneWorker f (ws ++ starting ∷ [])
OneWorker-start [] f h = inl (tt, tt)
OneWorker-start (w ∷ ws) f (h, hs) = inr (h, OneWorker-start ws f hs)

pub on_way-start : (ws : List Writer) (f : List Line) → Idle ws → on_way (ws ++ starting ∷ []) f ≡ f
on_way-start [] f h = refl
on_way-start (w ∷ ws) f (h, hs) =
    past_unsettled w (on_way (ws ++ starting ∷ []) f) h ∙ on_way-start ws f hs

same_writer : (v w : Writer) → some v ≡ some w → v ≡ w
same_writer v w e = cc

-- A goroutine before its chained flush ends.
pub Idle-leave :
    (i : ℕ) (ws : List Writer) → get_elem? ws i ≡ some chaining → Idle ws → Idle (splice i [] ws)
unfolding splice
Idle-leave i [] e h = tt
Idle-leave zero (w ∷ ws) e (h, hs) = hs
Idle-leave (suc i) (w ∷ ws) e (h, hs) = (h, Idle-leave i ws e hs)

pub OneWorker-leave :
    (i : ℕ) (ws : List Writer) (f : List Line)
    → get_elem? ws i ≡ some chaining
    → OneWorker f ws
    → OneWorker f (splice i [] ws) × (on_way (splice i [] ws) f ≡ on_way ws f)
unfolding splice
OneWorker-leave i [] f e h = absurd h
OneWorker-leave zero (w ∷ ws) f e (inl (h, hs)) =
    absurd (subst (Fits f) (same_writer w chaining e) h)
OneWorker-leave zero (w ∷ ws) f e (inr (h, one)) = (one, sym (past_unsettled w (on_way ws f) h))
OneWorker-leave (suc i) (w ∷ ws) f e (inl (h, hs)) = (
  inl (h, Idle-leave i ws e hs),
  ap (λ l. if is_settled w then [] else l)
      (on_way-Idle (splice i [] ws) f (Idle-leave i ws e hs) ∙ sym (on_way-Idle ws f hs)),
)
OneWorker-leave (suc i) (w ∷ ws) f e (inr (h, one)) =
    let (one', same) = OneWorker-leave i ws f e one in
    (inr (h, one'), ap (λ l. if is_settled w then [] else l) same)

pub Idle-working :
    (i : ℕ) (ws : List Writer) (w : Writer)
    → get_elem? ws i ≡ some w
    → is_working w ≡ true
    → Idle ws
    → ⊥
Idle-working i [] w e k h = cc
Idle-working zero (v ∷ ws) w e k (h, hs) = let same = same_writer v w e in cc
Idle-working (suc i) (v ∷ ws) w e k (h, hs) = Idle-working i ws w e k hs

-- No goroutine but the one at the place works.
abbrev pub Alone : ℕ → List Writer → Type 0
Alone i [] = Unit
Alone zero (w ∷ ws) = Idle ws
Alone (suc i) (w ∷ ws) = (is_working w ≡ false) × Alone i ws

-- The goroutine that works is the one that has the batch.
pub OneWorker-working :
    (i : ℕ) (ws : List Writer) (w : Writer) (f : List Line)
    → get_elem? ws i ≡ some w
    → is_working w ≡ true
    → OneWorker f ws
    → Fits f w × ((on_way ws f ≡ (if is_settled w then [] else f)) × Alone i ws)
OneWorker-working i [] w f e k h = absurd h
OneWorker-working zero (v ∷ ws) w f e k (inl (h, hs)) =
    let same = same_writer v w e in
    (
      subst (Fits f) same h,
      (
        ap (λ x. if is_settled x then [] else on_way ws f) same
            ∙ ap (λ l. if is_settled w then [] else l) (on_way-Idle ws f hs),
        hs,
      ),
    )
OneWorker-working zero (v ∷ ws) w f e k (inr (h, one)) = let same = same_writer v w e in absurd cc
OneWorker-working (suc i) (v ∷ ws) w f e k (inl (h, hs)) = absurd (Idle-working i ws w e k hs)
OneWorker-working (suc i) (v ∷ ws) w f e k (inr (h, one)) =
    let (fits, (way, alone)) = OneWorker-working i ws w f e k one in
    (fits, (past_unsettled v (on_way ws f) h ∙ way, (h, alone)))

-- The goroutine goes on.
pub Alone-next :
    (i : ℕ) (ws : List Writer) (w w' : Writer) (f : List Line)
    → get_elem? ws i ≡ some w
    → Alone i ws
    → Fits f w'
    → OneWorker f (splice i (w' ∷ []) ws)
      × (on_way (splice i (w' ∷ []) ws) f ≡ (if is_settled w' then [] else f))
unfolding splice
Alone-next i [] w w' f e a h = absurd cc
Alone-next zero (v ∷ ws) w w' f e a h =
    (inl (h, a), ap (λ l. if is_settled w' then [] else l) (on_way-Idle ws f a))
Alone-next (suc i) (v ∷ ws) w w' f e (k, a) h =
    let (one, way) = Alone-next i ws w w' f e a h in
    (inr (k, one), past_unsettled v (on_way (splice i (w' ∷ []) ws) f) k ∙ way)

-- The goroutine ends, or has the chained flush left.
pub Alone-end :
    (i : ℕ) (ws new : List Writer)
    → Alone i ws
    → (new ≡ []) ⊎ (new ≡ chaining ∷ [])
    → Idle (splice i new ws)
unfolding splice
Alone-end i [] new a h = tt
Alone-end zero (v ∷ ws) new a (inl h) = rw h a
Alone-end zero (v ∷ ws) new a (inr h) = rw h (refl, a)
Alone-end (suc i) (v ∷ ws) new (k, a) h = (k, Alone-end i ws new a h)
