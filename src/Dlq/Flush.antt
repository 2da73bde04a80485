-- ===== src/Dlq/Flush.antt =====
-- What `Flush` proposes, and when it panics.
use mathlib.Core.List.{append_assoc, append-nil}
use mathlib.Core.Path.{ap₂}
use cue.Base.{
  ℕ, ◌≡◌, ◌≢◌, refl, sym, ap, subst, ◌∙◌, ◌⊎◌, inl, inr, false, List, [], ◌∷◌, ◌++◌, Option, none,
  some, if◌then◌else◌, done, panics, Bool-cases, Option-cases, arith,
}
use cue.Base.Int.{ℤ}
use cue.Model.{Job}
use cue.Store.{JobStore, get, release, freed}
use cue.Store.Emptied.{get-freed, release-get, release-cases}
use cue.Store
use cue.Store.Slots.{has}
use cue.Store.Invariant.{freed-IsValid}
use cue.Dlq.{DeadLetter, DlqBuffer, DropProposal, to_uint32, collect_drops, flush, emptied}

abbrev pub slot : DeadLetter → ℕ
slot item = to_uint32 item.ref.index

-- Some letter of the list refers to an empty slot.
abbrev pub Dangling : JobStore → List DeadLetter → Type 0
Dangling store [] = ⊥
Dangling store (item ∷ items) = (get store (slot item) ≡ none) ⊎ Dangling store items

Dangling-freed :
    (store : JobStore) (job : Job) (i : ℕ) (items : List DeadLetter)
    → Dangling store items
    → Dangling (freed store job i) items
Dangling-freed store job i (item ∷ items) (inl e) =
    inl (get-freed store job i (slot item) ∙ ground arith)
Dangling-freed store job i (item ∷ items) (inr d) = inr (Dangling-freed store job i items d)
Dangling-freed store job i [] d = absurd d

collect_drops-Dangling :
    (items : List DeadLetter) (store : JobStore) (now : ℤ) (drops : List DropProposal)
    → Dangling store items
    → collect_drops items store now drops ≡ panics
unfolding collect_drops
collect_drops-Dangling [] store now drops d = absurd d
collect_drops-Dangling (item ∷ items) store now drops d =
    elim (Option-cases (get store (slot item))) [
      | inl e ↦ rw (e, collect_drops) refl
      | inr (job, e) ↦
          let rest : Dangling store items = later (ground arith) d in
          elim (Bool-cases job.is_done) [
            | inl f ↦
                rw (e, collect_drops)
                  (rw f (elim (release-cases store (slot item)) [
                    | inl r ↦ rw r (collect_drops-Dangling items store now drops rest)
                    | inr (inl r) ↦ rw r refl
                    | inr (inr (job', r)) ↦ rw r (
                        collect_drops-Dangling items (freed store job' (slot item)) now drops
                          (Dangling-freed store job' (slot item) items rest))
                  ]))
            | inr f ↦ rw (e, collect_drops) (rw f (collect_drops-Dangling items store now _ rest))
          ]
    ]
  where
    later : get store (slot item) ≢ none → Dangling store (item ∷ items) → Dangling store items
    later h (inl e) = absurd (h e)
    later h (inr r) = r

-- A buffer with a letter for a job whose slot is empty makes `Flush` read a field of a nil job, which
-- panics, wherever in the buffer the letter stands.
pub flush-Dangling :
    (dlq : DlqBuffer) (store : JobStore) (now : ℤ)
    → Dangling store dlq.jobs
    → flush dlq store now ≡ panics
unfolding flush
flush-Dangling dlq store now d = go dlq.jobs refl
  where
    go : (items : List DeadLetter) → dlq.jobs ≡ items → flush dlq store now ≡ panics
    go [] e = absurd (subst (Dangling store) e d)
    go (item ∷ items) e = rw (e, flush) (rw (collect_drops-Dangling dlq.jobs store now [] d) refl)

-- A job that is not done is proposed for a drop.
abbrev pub propose : ℤ → Option Job → List DropProposal → List DropProposal
propose now none rest = rest
propose now (some job) rest =
    if job.is_done
    then rest
    else (record { job_id = job.id; topic = job.topic; timestamp = now } ∷ rest)

-- The proposals for the letters whose jobs are not done, in order.
pub proposals : JobStore → ℤ → List DeadLetter → List DropProposal
proposals store now [] = []
proposals store now (item ∷ items) = propose now (get store (slot item)) (proposals store now items)

-- A job that is done leaves its slot.
abbrev pub kept_unless_done : Option Job → Option Job
kept_unless_done none = none
kept_unless_done (some job) = if job.is_done then none else some job

abbrev pub slots : List DeadLetter → List ℕ
slots [] = []
slots (item ∷ items) = slot item ∷ slots items

-- Every letter refers to a job of its own.
abbrev pub Attached : JobStore → List DeadLetter → Type 0
Attached store [] = Unit
Attached store (item ∷ items) =
    ((job : Job) × (get store (slot item) ≡ some job))
    × (has (slot item) (slots items) ≡ false)
    × Attached store items

Attached-freed :
    (store : JobStore) (job : Job) (i : ℕ) (items : List DeadLetter)
    → has i (slots items) ≡ false
    → Attached store items
    → Attached (freed store job i) items
Attached-freed store job i [] apart a = tt
Attached-freed store job i (item ∷ items) apart ((job', e), rest_apart, rest) = (
  (job', get-freed store job i (slot item) ∙ ground arith),
  rest_apart,
  Attached-freed store job i items (ground arith) rest,
)

proposals-freed :
    (store : JobStore) (job : Job) (i : ℕ) (now : ℤ) (items : List DeadLetter)
    → has i (slots items) ≡ false
    → proposals (freed store job i) now items ≡ proposals store now items
unfolding proposals
proposals-freed store job i now [] apart = refl
proposals-freed store job i now (item ∷ items) apart =
    let kept : get (freed store job i) (slot item) ≡ get store (slot item) =
      get-freed store job i (slot item) ∙ ground arith in
    ap₂ (propose now) kept (proposals-freed store job i now items (ground arith))

-- The store after a flush: the jobs that were done are released, and no others.
pub record Flushed (store : JobStore) (items : List DeadLetter) (store' : JobStore) : Type 0 where
  pub valid : Store.Invariant.IsValid store'
  pub slots_after :
      (j : ℕ)
      → get store' j ≡ (if has j (slots items) then kept_unless_done (get store j) else get store j)

collect_drops-Flushed :
    (items : List DeadLetter) (store : JobStore) (now : ℤ) (drops : List DropProposal)
    → Store.Invariant.IsValid store
    → Attached store items
    → (store' : JobStore) × (collect_drops items store now drops
        ≡ done (store', drops ++ proposals store now items))
      × Flushed store items store'
unfolding collect_drops proposals
collect_drops-Flushed [] store now drops v a = (
  store,
  ap (λ l. done (store, l)) (sym (append-nil drops)),
  record { valid = v; slots_after = λ j. refl },
)
collect_drops-Flushed (item ∷ items) store now drops v ((job, e), apart, rest) =
    elim (Bool-cases job.is_done) [
      | inl f ↦
          let (at, named, r) = release-get store (slot item) job e in
          let store1 = freed store job (slot item) in
          let (store', e', fl) =
            collect_drops-Flushed items store1 now drops
              (freed-IsValid store job (slot item) v named at)
              (Attached-freed store job (slot item) items apart rest) in
          (
            store',
            rw (e, collect_drops, proposals)
                (rw f (
                  rw r (
                    e'
                    ∙ ap (λ l. done (store', drops ++ l))
                        (proposals-freed store job (slot item) now items apart)))),
            record {
              valid = fl.valid;
              slots_after =
                  λ j. fl.slots_after j ∙ ground (arith, get-freed store job (slot item) j);
            },
          )
      | inr f ↦
          let proposal : DropProposal = record {
            job_id = job.id;
            topic = job.topic;
            timestamp = now;
          } in
          let (store', e', fl) =
            collect_drops-Flushed items store now (drops ++ proposal ∷ []) v rest in
          (
            store',
            rw (e, collect_drops, proposals)
                (rw f (e' ∙ ap (λ l. done (store', l)) (append_assoc drops (proposal ∷ []) _))),
            record { valid = fl.valid; slots_after = λ j. fl.slots_after j ∙ ground arith },
          )
    ]

flush-cons :
    (dlq : DlqBuffer) (store : JobStore) (now : ℤ) (item : DeadLetter) (items : List DeadLetter)
    (r : JobStore × List DropProposal)
    → dlq.jobs ≡ item ∷ items
    → collect_drops dlq.jobs store now [] ≡ done r
    → flush dlq store now ≡ done (emptied dlq now, r.0, r.1)
unfolding flush
flush-cons dlq store now item items r shape e = rw (shape, flush) (rw e refl)

-- When the buffer is not empty, every letter refers to a job of its own, and the store is well
-- formed, `Flush` does not panic: it proposes to drop exactly the jobs that are not done, in the
-- order of the buffer, releases exactly those that are done, and empties the buffer.
pub flush-proposals :
    (dlq : DlqBuffer) (store : JobStore) (now : ℤ) (item : DeadLetter) (items : List DeadLetter)
    → Store.Invariant.IsValid store
    → dlq.jobs ≡ item ∷ items
    → Attached store dlq.jobs
    → (store' : JobStore) × (flush dlq store now
        ≡ done (emptied dlq now, store', proposals store now dlq.jobs))
      × Flushed store dlq.jobs store'
flush-proposals dlq store now item items v shape a =
    let (store', e, fl) = collect_drops-Flushed dlq.jobs store now [] v a in
    (store', flush-cons dlq store now item items (store', proposals store now dlq.jobs) shape e, fl)
