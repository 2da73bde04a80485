-- ===== src/Queue/Scan.antt =====
-- The first pass of `ReadBatch`: it finds the two oldest due times of the ready jobs.
use cue.Base.{
  ◌<◌, ◌≡◌, refl, sym, ◌⊎◌, inl, inr, List, [], ◌∷◌, Option, none, some, arith, Bool-cases,
  Option-cases, if◌then◌else◌,
}
use cue.Base.Int.{ℤ, ltb_ℤ, leb_ℤ, eq_ℤ, eq_ℤ_iff, ◌≤ℤ◌, ◌<ℤ◌, eq_of_parts}
use cue.Queue.{JobRef, Oldest, max_int64, no_times, scan_due, scan}

-- The due times of the jobs that are ready.
abbrev pub ready_times : ℤ → List JobRef → List ℤ
ready_times now [] = []
ready_times now (r ∷ rs) =
    let rest = ready_times now rs in
    if leb_ℤ r.due_time_sec now then r.due_time_sec ∷ rest else rest

unfoldable pub least : List ℤ → Option ℤ
least [] = none
least (t ∷ ts) = elim (least ts) [ none ↦ some t | some u ↦ some (if leb_ℤ t u then t else u) ]

abbrev pub Elem : ℤ → List ℤ → Type 0
Elem t [] = ⊥
Elem t (u ∷ us) = (t ≡ u) ⊎ Elem t us

least-lower : (ts : List ℤ) (m u : ℤ) → ((t : ℤ) → Elem t ts → m ≤ℤ t) → least ts ≡ some u → m ≤ℤ u
unfolding least
least-lower [] m u h e = absurd (ground arith)
least-lower (t ∷ ts) m u h e = elim (Option-cases (least ts)) [
  | inl none_left ↦ ground (arith, h t (inl refl))
  | inr (w, e') ↦ ground (arith, h t (inl refl), least-lower ts m w (λ x k. h x (inr k)) e')
]

-- A lower bound that occurs is the least element.
pub least_unique :
    (ts : List ℤ) (m : ℤ) → ((t : ℤ) → Elem t ts → m ≤ℤ t) → Elem m ts → least ts ≡ some m
unfolding least
least_unique [] m h k = absurd k
least_unique (t ∷ ts) m h (inl e) = elim (Option-cases (least ts)) [
  | inl none_left ↦ ground arith
  | inr (w, e') ↦
      let low = least-lower ts m w (λ x k. h x (inr k)) e' in ground (arith, eq_of_parts m w)
]
least_unique (t ∷ ts) m h (inr k) =
    let ih = least_unique ts m (λ x j. h x (inr j)) k in
    ground (arith, h t (inl refl), eq_of_parts m t)

pub least-none : (ts : List ℤ) → ((t : ℤ) → Elem t ts → ⊥) → least ts ≡ none
unfolding least
least-none [] h = refl
least-none (t ∷ ts) h = absurd (h t (inl refl))

scan_all : Oldest → List ℤ → Oldest
scan_all s [] = s
scan_all s (t ∷ ts) = scan_all (scan_due s t) ts

scan-scan_all :
    (now : ℤ) (s : Oldest) (rs : List JobRef) → scan now s rs ≡ scan_all s (ready_times now rs)
unfolding scan scan_all
scan-scan_all now s [] = refl
scan-scan_all now s (r ∷ rs) = elim (Bool-cases (leb_ℤ r.due_time_sec now)) [
  | inl e ↦ rw e (scan-scan_all now (scan_due s r.due_time_sec) rs)
  | inr e ↦ rw e (scan-scan_all now s rs)
]

-- What the four variables of the loop say of the times seen so far.
pub record Summary (s : Oldest) (seen : List ℤ) : Type 0 where
  pub lower : (t : ℤ) → Elem t seen → s.oldest_time ≤ℤ t
  pub next : (t : ℤ) → Elem t seen → (t ≡ s.oldest_time) ⊎ (s.second_time ≤ℤ t)
  pub first : 0 < s.oldest_count → Elem s.oldest_time seen
  pub empty : s.oldest_count ≡ 0 → (seen ≡ []) × (s.oldest_time ≡ max_int64)
  pub second : 0 < s.second_count → Elem s.second_time seen × (s.oldest_time <ℤ s.second_time)
  pub alone : s.second_count ≡ 0 → s.second_time ≡ max_int64

scan_due-Summary :
    (s : Oldest) (seen : List ℤ) (d : ℤ)
    → d <ℤ max_int64
    → Summary s seen
    → Summary (scan_due s d) (d ∷ seen)
unfolding scan_due
scan_due-Summary s seen d lt v = elim (Bool-cases (ltb_ℤ d s.oldest_time)) [
  | inl e ↦ rw e (record {
    lower = λ t k. ground (arith, v.lower t);
    next = λ t k. ground (arith, v.lower t);
    first = λ h. inl refl;
    empty = λ h. absurd (omega arith);
    second = λ h. (inr (v.first h), ground arith);
    alone = λ h. (v.empty h).1;
  })
  | inr e ↦ elim (Bool-cases (eq_ℤ d s.oldest_time)) [
    | inl f ↦
        let same : d ≡ s.oldest_time = (eq_ℤ_iff d s.oldest_time).0 f in
        rw (e, f)
          (record {
            lower = λ t k. ground (arith, v.lower t);
            next = λ t k. ground (arith, v.next t);
            first = λ h. inl (sym same);
            empty = λ h. absurd (omega arith);
            second = λ h. (inr (v.second h).0, (v.second h).1);
            alone = v.alone;
          })
    | inr f ↦ elim (Bool-cases (ltb_ℤ d s.second_time)) [
      | inl g ↦
          rw (e, f, g)
            (record {
              lower = λ t k. ground (arith, v.lower t);
              next = λ t k. ground (arith, v.next t);
              first = λ h. inr (v.first h);
              empty = λ h. absurd (ground (arith, v.empty h));
              second = λ h. (inl refl, ground (arith, eq_of_parts d s.oldest_time));
              alone = λ h. absurd (omega arith);
            })
      | inr g ↦ elim (Bool-cases (eq_ℤ d s.second_time)) [
        | inl j ↦
            let same : d ≡ s.second_time = (eq_ℤ_iff d s.second_time).0 j in
            rw (e, f, g, j)
              (record {
                lower = λ t k. ground (arith, v.lower t);
                next = λ t k. ground (arith, v.next t);
                first = λ h. inr (v.first h);
                empty = λ h. absurd (ground (arith, v.empty h));
                second = λ h. (inl (sym same), ground (arith, eq_of_parts d s.oldest_time));
                alone = λ h. absurd (omega arith);
              })
        | inr j ↦
            rw (e, f, g, j)
              (record {
                lower = λ t k. ground (arith, v.lower t);
                next = λ t k. ground (arith, v.next t);
                first = λ h. inr (v.first h);
                empty = λ h. absurd (ground (arith, v.empty h));
                second = λ h. (inr (v.second h).0, (v.second h).1);
                alone = v.alone;
              })
      ]
    ]
  ]
]

abbrev pub rev_onto : List ℤ → List ℤ → List ℤ
rev_onto [] seen = seen
rev_onto (t ∷ ts) seen = rev_onto ts (t ∷ seen)

scan_all-Summary :
    (s : Oldest) (seen ts : List ℤ)
    → ((t : ℤ) → Elem t ts → t <ℤ max_int64)
    → Summary s seen
    → Summary (scan_all s ts) (rev_onto ts seen)
unfolding scan_all
scan_all-Summary s seen [] below v = v
scan_all-Summary s seen (t ∷ ts) below v =
    scan_all-Summary (scan_due s t) (t ∷ seen) ts (λ u k. below u (inr k))
      (scan_due-Summary s seen t (below t (inl refl)) v)

Elem-rev_onto_seen : (t : ℤ) (ts seen : List ℤ) → Elem t seen → Elem t (rev_onto ts seen)
Elem-rev_onto_seen t [] seen k = k
Elem-rev_onto_seen t (u ∷ ts) seen k = Elem-rev_onto_seen t ts (u ∷ seen) (inr k)

pub Elem-rev_onto : (t : ℤ) (ts seen : List ℤ) → Elem t ts → Elem t (rev_onto ts seen)
Elem-rev_onto t [] seen k = absurd k
Elem-rev_onto t (u ∷ ts) seen (inl e) = Elem-rev_onto_seen t ts (u ∷ seen) (inl e)
Elem-rev_onto t (u ∷ ts) seen (inr k) = Elem-rev_onto t ts (u ∷ seen) k

Elem_of_rev_onto : (t : ℤ) (ts seen : List ℤ) → Elem t (rev_onto ts seen) → Elem t ts ⊎ Elem t seen
Elem_of_rev_onto t [] seen k = inr k
Elem_of_rev_onto t (u ∷ ts) seen k = elim (Elem_of_rev_onto t ts (u ∷ seen) k) [
  | inl h ↦ inl (inr h)
  | inr (inl e) ↦ inl (inl e)
  | inr (inr h) ↦ inr h
]

-- The variables of the first pass, for the ready times in the order of the queue.
abbrev pub Found : ℤ → List JobRef → Type 0
Found now rs = Summary (scan now no_times rs) (rev_onto (ready_times now rs) [])

pub scan-Found :
    (now : ℤ) (rs : List JobRef)
    → ((t : ℤ) → Elem t (ready_times now rs) → t <ℤ max_int64)
    → Found now rs
scan-Found now rs below = rw (scan-scan_all now no_times rs) (
    scan_all-Summary no_times [] (ready_times now rs) below (record {
      lower = λ t k. absurd k;
      next = λ t k. absurd k;
      first = λ h. absurd (omega arith);
      empty = λ h. (refl, refl);
      second = λ h. absurd (omega arith);
      alone = λ h. refl;
    }))

pub Elem_of_rev : (t : ℤ) (ts : List ℤ) → Elem t (rev_onto ts []) → Elem t ts
Elem_of_rev t ts k = elim (Elem_of_rev_onto t ts [] k) [ inl h ↦ h | inr h ↦ absurd h ]
