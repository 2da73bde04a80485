-- ===== src/Store/Slots.antt =====
-- The IDs in the slots of the store, and membership in the free list.
use cue.Base.{
  ℕ, ◌<◌, ◌≡◌, List, [], ◌∷◌, ◌++◌, Option, none, some, String, Bool, true, false, arith, ◌==◌,
  if◌then◌else◌, length, get_elem?, set, get_elem?-set, get_elem?-append, lt-length_of_get_elem?,
  Option-cases, inl, inr,
}
use cue.Model.{Job}

abbrev pub some_id : Option Job → Option String
some_id none = none
some_id (some job) = some job.id

abbrev pub id_at : List Job → ℕ → Option String
id_at jobs i = some_id (get_elem? jobs i)

pub id_at-set :
    (jobs : List Job) (i j : ℕ) (job : Job)
    → i < length jobs
    → id_at (set jobs i job) j ≡ (if i == j then some job.id else id_at jobs j)
id_at-set jobs i j job lt = ground (arith, get_elem?-set jobs i j job)

pub id_at-append :
    (jobs : List Job) (job : Job) (j : ℕ)
    → id_at (jobs ++ job ∷ []) j ≡ (if j == length jobs then some job.id else id_at jobs j)
id_at-append jobs job j = ground (arith, get_elem?-append jobs job j)

pub lt-length_of_id_at :
    (jobs : List Job) (i : ℕ) (id : String) → id_at jobs i ≡ some id → i < length jobs
lt-length_of_id_at jobs i id e = elim (Option-cases (get_elem? jobs i)) [
  | inl none_there ↦ absurd (ground arith)
  | inr (job, there) ↦ lt-length_of_get_elem? jobs i job there
]

abbrev pub has : ℕ → List ℕ → Bool
has i [] = false
has i (j ∷ js) = if i == j then true else has i js

abbrev pub Distinct : List ℕ → Type 0
Distinct [] = Unit
Distinct (i ∷ is) = (has i is ≡ false) × Distinct is
