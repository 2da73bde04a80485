-- ===== src/Queue/Contents.antt =====
-- The queue as the list of its live jobs without their positions: what an addition and a removal do
-- to it, whatever the slots.
use mathlib.Core.List.{map-append, perm_middle, append-nil}
use mathlib.Core.List.Perm
use cue.Base.{
  ℕ, zero, suc, ◌-◌, ◌≤◌, ◌<◌, ◌≡◌, refl, sym, ap, ◌∙◌, subst, List, [], ◌∷◌, ◌++◌, map, Perm, some,
  arith, ◌==◌, length, get_elem?, set, take, get_elem?-set, get_elem?-within, inl, inr, Bool-cases,
  ==_iff, false,
}
use cue.Base.Int.{pos}
use cue.Queue.{JobRef, ProcessQueue, tombstone, added, removed, live}
use cue.Queue.Shape.{IsValid, move_into-some}

module _ {ℓ} {A : Type ℓ} where
  pub take-suc :
      (n : ℕ) (xs : List A) (a : A)
      → get_elem? xs n ≡ some a
      → take (suc n) xs ≡ take n xs ++ a ∷ []
  take-suc n [] a h = ground arith
  take-suc zero (x ∷ xs) a h = ground arith
  take-suc (suc n) (x ∷ xs) a h = ap (◌∷◌ x) (take-suc n xs a h)

  pub take-set_beyond :
      (n : ℕ) (xs : List A) (i : ℕ) (a : A) → n ≤ i → take n (set xs i a) ≡ take n xs
  take-set_beyond zero xs i a h = refl
  take-set_beyond (suc n) [] i a h = refl
  take-set_beyond (suc n) (x ∷ xs) zero a h = absurd (omega arith)
  take-set_beyond (suc n) (x ∷ xs) (suc i) a h = ap (◌∷◌ x) (take-set_beyond n xs i a (omega arith))

  pub take-set_within :
      (n : ℕ) (xs : List A) (i : ℕ) (a : A) → i < n → take n (set xs i a) ≡ set (take n xs) i a
  take-set_within zero xs i a h = absurd (omega arith)
  take-set_within (suc n) [] i a h = refl
  take-set_within (suc n) (x ∷ xs) zero a h = refl
  take-set_within (suc n) (x ∷ xs) (suc i) a h = ap (◌∷◌ x) (take-set_within n xs i a (omega arith))

  pub get_elem?-take :
      (n : ℕ) (xs : List A) (i : ℕ) → i < n → get_elem? (take n xs) i ≡ get_elem? xs i
  get_elem?-take zero xs i h = absurd (omega arith)
  get_elem?-take (suc n) [] i h = refl
  get_elem?-take (suc n) (x ∷ xs) zero h = refl
  get_elem?-take (suc n) (x ∷ xs) (suc i) h = get_elem?-take n xs i (omega arith)

  -- A write trades the old entry for the new one.
  pub map-set-perm {κ} :
      {B : Type κ} (f : A → B) (xs : List A) (i : ℕ) (a b : A)
      → get_elem? xs i ≡ some a
      → Perm (f a ∷ map f (set xs i b)) (f b ∷ map f xs)
  map-set-perm f [] i a b h = absurd (ground arith)
  map-set-perm f (x ∷ xs) zero a b h =
      let same : x ≡ a = ground arith in rw same (Perm.swap (f b) (f a) (map f xs))
  map-set-perm f (x ∷ xs) (suc i) a b h =
      Perm.trans (Perm.swap (f x) (f a) _)
        (Perm.trans (Perm.cons (f x) (map-set-perm f xs i a b h)) (Perm.swap (f b) (f x) _))

-- A reference without its position.
abbrev pub forget : JobRef → JobRef
forget r = record r { cell = pos 0 }

abbrev pub contents : ProcessQueue → List JobRef
contents q = map forget (live q)

-- An added job stands behind the others.
pub contents-added :
    (q : ProcessQueue) (job : JobRef)
    → q.live_count < length q.records
    → contents (added q job) ≡ contents q ++ forget job ∷ []
unfolding added
contents-added q job room =
    let n = q.live_count in
    let job' : JobRef = record job { cell = pos n } in
    let at : get_elem? (set q.records n job') n ≡ some job' =
      ground (arith, get_elem?-set q.records n n job') in
    ap (map forget) (take-suc n (set q.records n job') job' at)
    ∙ map-append forget (take n (set q.records n job')) (job' ∷ [])
    ∙ ap (λ l. map forget l ++ forget job ∷ []) (take-set_beyond n q.records n job' (omega arith))

concat-perm {ℓ} : {A : Type ℓ} (xs : List A) (x : A) → Perm (xs ++ x ∷ []) (x ∷ xs)
concat-perm xs x = rw (append-nil xs) at (perm_middle {a = x} xs [])

module _ (q : ProcessQueue) (cell last : ℕ) (n : q.live_count ≡ suc last) where
  here : q.live_count - 1 ≡ last
  here = omega arith

  live-removed-last : cell ≡ last → live (removed q cell) ≡ take last q.records
  unfolding removed
  live-removed-last e =
      rw (here, (==_iff cell last).1 e)
        (take-set_beyond last q.records last tombstone (omega arith))

  live-removed_inner :
      {rl : JobRef}
      → cell < last
      → get_elem? q.records last ≡ some rl
      → live (removed q cell) ≡ set (take last q.records) cell (record rl { cell = pos cell })
  unfolding removed
  live-removed_inner {rl} lt at =
      let apart : (cell == last) ≡ false = ground arith in
      let moved = set q.records cell (record rl { cell = pos cell }) in
      rw (here, apart, move_into-some q.records last cell at)
        (take-set_beyond last moved last tombstone (omega arith)
          ∙ take-set_within last q.records cell _ lt)

  contents-split :
      {rl : JobRef}
      → get_elem? q.records last ≡ some rl
      → contents q ≡ map forget (take last q.records) ++ forget rl ∷ []
  contents-split {rl} at =
      ap (λ k. map forget (take k q.records)) n
      ∙ ap (map forget) (take-suc last q.records rl at)
      ∙ map-append forget (take last q.records) (rl ∷ [])

  removed-perm :
      {r rl : JobRef}
      → cell ≤ last
      → get_elem? q.records cell ≡ some r
      → get_elem? q.records last ≡ some rl
      → Perm (forget rl ∷ map forget (take last q.records)) (forget r ∷ contents (removed q cell))
  removed-perm {r} {rl} le at there = elim (Bool-cases (cell == last)) [
    | inl e ↦
        let same : cell ≡ last = (==_iff cell last).0 e in
        let one : rl ≡ r = ground (arith, ap (get_elem? q.records) same) in
        rw (live-removed-last same, one) (Perm.refl _)
    | inr e ↦
        let inner : cell < last = ground arith in
        rw (live-removed_inner inner there) (
          Perm.symm (
            map-set-perm forget (take last q.records) cell r (record rl { cell = pos cell })
              (get_elem?-take last q.records cell inner ∙ at)))
  ]

-- A removal takes out the entry of that cell, and no other.
pub contents-removed-perm :
    (q : ProcessQueue) (cell : ℕ) (r : JobRef)
    → IsValid q
    → cell < q.live_count
    → get_elem? q.records cell ≡ some r
    → Perm (contents q) (forget r ∷ contents (removed q cell))
contents-removed-perm q cell r v lt at =
    let last = q.live_count - 1 in
    let n : q.live_count ≡ suc last = omega arith in
    let (rl, there) = get_elem?-within q.records last (omega (arith, v.bounded)) in
    subst (λ l. Perm l (forget r ∷ contents (removed q cell)))
      (sym (contents-split q cell last n there))
      (Perm.trans (concat-perm _ (forget rl)) (removed-perm q cell last n (omega arith) at there))
