-- ===== src/Queue/Batch.antt =====
-- `ReadBatch` returns the ready jobs of the two oldest due times, oldest first, cut at the count.
use mathlib.Core.List.{append_assoc, append-nil}
use cue.Base.{
  ℕ, suc, ◌+◌, ◌-◌, ◌<◌, ◌≡◌, refl, sym, ap, subst, ◌∙◌, inl, inr, true, false, List, [], ◌∷◌, ◌++◌,
  none, some, arith, Bool-cases, if◌then◌else◌, select, take, length, ltb, ◌==◌, take-nil,
  take-append, length-take, min, ==_iff,
}
use cue.Base.Int.{ℤ, pos, pos_part, ltb_ℤ, eq_ℤ, ◌<ℤ◌}
use cue.Queue.{
  JobRef, ProcessQueue, Oldest, Collected, max_int64, no_times, scan, collect, collect_batch,
  nothing_collected, read_batch, live,
}
use cue.Queue.Scan.{
  ready_times, least, Elem, least_unique, least-none, Found, scan-Found, rev_onto, Elem-rev_onto,
  Elem_of_rev,
}

abbrev pub of_time : ℤ → List JobRef → List JobRef
of_time t = select (λ r. eq_ℤ r.due_time_sec t)

abbrev pub later_than : ℤ → List ℤ → List ℤ
later_than t = select (λ u. ltb_ℤ t u)

abbrev pub of_least : List ℤ → List JobRef → List JobRef
of_least ts rs = elim (least ts) [ none ↦ [] | some t ↦ of_time t rs ]

-- The ready jobs of the oldest due time, and then those of the next.
pub two_oldest : ℤ → List JobRef → List JobRef
two_oldest now rs = elim (least (ready_times now rs)) [
  | none ↦ []
  | some t ↦ of_time t rs ++ of_least (later_than t (ready_times now rs)) rs
]

items-collect :
    (t count : ℤ) (rs : List JobRef) (c : Collected)
    → (collect t count rs c).items ≡ c.items ++ take (pos_part count - c.collected) (of_time t rs)
unfolding collect
items-collect t count [] c =
    sym (ap (λ l. c.items ++ l) (take-nil (pos_part count - c.collected)) ∙ append-nil c.items)
items-collect t count (r ∷ rs) c = elim (Bool-cases (ltb_ℤ (pos c.collected) count)) [
  | inl more ↦ elim (Bool-cases (eq_ℤ r.due_time_sec t)) [
    | inl e ↦
        let one : pos_part count - c.collected ≡ suc (pos_part count - suc c.collected) =
          ground arith in
        rw (more, e, one)
          (items-collect t count rs
              (record { items = c.items ++ r ∷ []; collected = suc c.collected })
            ∙ append_assoc c.items (r ∷ []) _)
    | inr e ↦ rw (more, e) (items-collect t count rs c)
  ]
  | inr full ↦
      let zero_left : pos_part count - c.collected ≡ 0 = ground arith in
      rw (full, zero_left) (sym (append-nil c.items))
]

collected-collect :
    (t count : ℤ) (rs : List JobRef) (c : Collected)
    → (collect t count rs c).collected
      ≡ c.collected + length (take (pos_part count - c.collected) (of_time t rs))
unfolding collect
collected-collect t count [] c =
    omega (arith, ap length (take-nil {A = JobRef} (pos_part count - c.collected)))
collected-collect t count (r ∷ rs) c = elim (Bool-cases (ltb_ℤ (pos c.collected) count)) [
  | inl more ↦ elim (Bool-cases (eq_ℤ r.due_time_sec t)) [
    | inl e ↦
        let one : pos_part count - c.collected ≡ suc (pos_part count - suc c.collected) =
          ground arith in
        let next : Collected = record { items = c.items ++ r ∷ []; collected = suc c.collected } in
        rw (more, e, one) (omega (arith, collected-collect t count rs next))
    | inr e ↦ rw (more, e) (collected-collect t count rs c)
  ]
  | inr full ↦
      let zero_left : pos_part count - c.collected ≡ 0 = ground arith in
      rw (full, zero_left) (omega arith)
]

-- Both passes together, for the times that the first pass found.
abbrev found_jobs : Oldest → List JobRef → List JobRef
found_jobs s rs =
    of_time s.oldest_time rs ++ (if ltb 0 s.second_count then of_time s.second_time rs else [])

module _ (count : ℤ) (rs : List JobRef) (s : Oldest) where
  abbrev n : ℕ
  n = pos_part count

  abbrev olds : List JobRef
  olds = of_time s.oldest_time rs

  abbrev first : Collected
  first = collect s.oldest_time count rs nothing_collected

  items_first : first.items ≡ take n olds
  items_first =
      items-collect s.oldest_time count rs nothing_collected ∙ ap (λ k. take k olds) (omega arith)

  collected_first : first.collected ≡ min n (length olds)
  collected_first = omega (
    arith,
    collected-collect s.oldest_time count rs nothing_collected,
    ap (λ k. length (take k olds)) (let e : n - 0 ≡ n = omega arith in e),
    length-take n olds,
  )

  second_pass :
      ltb_ℤ (pos first.collected) count ≡ true
      → (collect s.second_time count rs first).items ≡ take n (olds ++ of_time s.second_time rs)
  second_pass more =
      let left : n - first.collected ≡ n - length olds = ground (arith, collected_first) in
      items-collect s.second_time count rs first
      ∙ ap (λ l. l ++ take (n - first.collected) (of_time s.second_time rs)) items_first
      ∙ ap (λ k. take n olds ++ take k (of_time s.second_time rs)) left
      ∙ sym (take-append n olds (of_time s.second_time rs))

  full_pass :
      (more : List JobRef)
      → ltb_ℤ (pos first.collected) count ≡ false
      → first.items ≡ take n (olds ++ more)
  full_pass more full =
      let left : n - length olds ≡ 0 = ground (arith, collected_first) in
      items_first
      ∙ sym (append-nil (take n olds))
      ∙ ap (λ k. take n olds ++ take k more) (sym left)
      ∙ sym (take-append n olds more)

  collect_batch-take :
      collect_batch count rs s ≡ (if s.oldest_count == 0 then [] else take n (found_jobs s rs))
  unfolding collect_batch
  collect_batch-take = elim (Bool-cases (s.oldest_count == 0)) [
    | inl e ↦ rw e refl
    | inr e ↦ elim (Bool-cases (ltb_ℤ (pos first.collected) count)) [
      | inl more ↦ elim (Bool-cases (ltb 0 s.second_count)) [
        | inl f ↦ rw (e, more, f) (second_pass more)
        | inr f ↦ rw (e, more, f) (items_first ∙ sym (ap (take n) (append-nil olds)))
      ]
      | inr full ↦ rw (e, full) (full_pass _ full)
    ]
  ]

Elem-later_than : (m t : ℤ) (ts : List ℤ) → Elem t (later_than m ts) → Elem t ts × (m <ℤ t)
Elem-later_than m t [] k = absurd k
Elem-later_than m t (u ∷ ts) k = elim (Bool-cases (ltb_ℤ m u)) [
  | inl e ↦ elim (rw e at k) [
    | inl h ↦ (inl h, ground arith)
    | inr h ↦ let (there, lt) = Elem-later_than m t ts h in (inr there, lt)
  ]
  | inr e ↦ let (there, lt) = Elem-later_than m t ts (rw e at k) in (inr there, lt)
]

Elem-later_than_of : (m t : ℤ) (ts : List ℤ) → Elem t ts → m <ℤ t → Elem t (later_than m ts)
Elem-later_than_of m t [] k lt = absurd k
Elem-later_than_of m t (u ∷ ts) (inl e) lt = ground arith
Elem-later_than_of m t (u ∷ ts) (inr k) lt = ground (arith, Elem-later_than_of m t ts k lt)

module _ (now : ℤ) (rs : List JobRef)
    (below : (t : ℤ) → Elem t (ready_times now rs) → t <ℤ max_int64) where
  abbrev times : List ℤ
  times = ready_times now rs

  abbrev summary : Oldest
  summary = scan now no_times rs

  module _ (v : Found now rs) where
    seen : (t : ℤ) → Elem t times → Elem t (rev_onto times [])
    seen t k = Elem-rev_onto t times [] k

    none_ready : summary.oldest_count ≡ 0 → least times ≡ none
    none_ready h =
        least-none times
          λ t k. let all_empty = (v.empty h).0 in Elem-nil t (subst (Elem t) all_empty (seen t k))
      where
        Elem-nil : (t : ℤ) → Elem t [] → ⊥
        Elem-nil t k = k

    oldest_least : 0 < summary.oldest_count → least times ≡ some summary.oldest_time
    oldest_least h =
        least_unique times summary.oldest_time (λ t k. v.lower t (seen t k))
          (Elem_of_rev summary.oldest_time times (v.first h))

    later : List ℤ
    later = later_than summary.oldest_time times

    second_least : 0 < summary.second_count → least later ≡ some summary.second_time
    unfolding later
    second_least h =
        let (there, lt) = v.second h in
        least_unique later summary.second_time
          (λ t k.
            let (in_times, above) = Elem-later_than summary.oldest_time t times k in
            elim (v.next t (seen t in_times)) [ inl e ↦ absurd (ground arith) | inr le ↦ le ])
          (Elem-later_than_of summary.oldest_time summary.second_time times
            (Elem_of_rev summary.second_time times there) lt)

    none-later : summary.second_count ≡ 0 → least later ≡ none
    unfolding later
    none-later h = least-none later λ t k.
        let (in_times, above) = Elem-later_than summary.oldest_time t times k in
        elim (v.next t (seen t in_times)) [
          | inl e ↦ ground arith
          | inr le ↦ ground (arith, v.alone h, below t in_times)
        ]

    found-two_oldest :
        (if summary.oldest_count == 0 then [] else found_jobs summary rs) ≡ two_oldest now rs
    unfolding two_oldest later
    found-two_oldest = elim (Bool-cases (summary.oldest_count == 0)) [
      | inl e ↦ rw (e, none_ready ((==_iff _ 0).0 e), two_oldest) refl
      | inr e ↦ elim (Bool-cases (ltb 0 summary.second_count)) [
        | inl f ↦
            rw (e, f, oldest_least (ground arith), two_oldest)
              (rw (second_least (ground arith), of_least) refl)
        | inr f ↦
            rw (e, f, oldest_least (ground arith), two_oldest)
              (rw (none-later (ground arith), of_least) refl)
      ]
    ]

-- `ReadBatch` returns the ready jobs of the oldest due time, then those of the second oldest, each
-- in the order of the queue, cut at `count`: nothing is returned that is not due, and no job is
-- passed over for a younger one. The due times are below the largest `int64`.
pub read_batch-two_oldest :
    (q : ProcessQueue) (count now : ℤ)
    → ((t : ℤ) → Elem t (ready_times now (live q)) → t <ℤ max_int64)
    → read_batch q count now ≡ take (pos_part count) (two_oldest now (live q))
unfolding read_batch two_oldest least
read_batch-two_oldest q count now below = elim (Bool-cases (q.live_count == 0)) [
  | inl e ↦ rw ((==_iff q.live_count 0).0 e) (sym (take-nil (pos_part count)))
  | inr e ↦ rw e (
      collect_batch-take count (live q) (scan now no_times (live q))
      ∙ cut (summary now (live q) below)
      ∙ ap (take (pos_part count))
          (found-two_oldest now (live q) below (scan-Found now (live q) below)))
]
  where
    cut :
        (s : Oldest)
        → (if s.oldest_count == 0 then [] else take (pos_part count) (found_jobs s (live q)))
          ≡ take (pos_part count) (if s.oldest_count == 0 then [] else found_jobs s (live q))
    cut s = elim (Bool-cases (s.oldest_count == 0)) [
      | inl e ↦ rw e (sym (take-nil (pos_part count)))
      | inr e ↦ rw e refl
    ]
