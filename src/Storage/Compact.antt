-- ===== src/Storage/Compact.antt =====
-- internal/cluster/raft_storage.go: what `compact` keeps and what it loses.
use cue.Base.{
  ℕ, ◌-◌, ◌≤◌, ◌<◌, ◌≡◌, ◌≢◌, refl, sym, ap, subst, ◌∙◌, inl, inr, ◌⊎◌, true, false, not, ◌&&◌,
  ◌||◌, none, some, if◌then◌else◌, ltb, leb, ◌==◌, ==_iff, arith, Bool-cases, [], ◌∷◌, length,
  String,
}
use cue.Base.Key.{nat_key, string_key, ◌=?◌}
use cue.Base.Dict.{Dict, lookup, Keyed, lookup_cons, lookup-nil}
use cue.Storage.{
  Entry, StorageCore, JobState, is_pending, is_compacted, min_pending, find_first_index_to_keep,
  drop_entries, drop_jobs, compact, compacted_to, update_indices,
}

-- Each entry stands under its own index.
abbrev pub Indexed : Dict ℕ Entry → Type 0
Indexed [] = Unit
Indexed ((i, e) ∷ m) = (e.index ≡ i) × Indexed m

-- The record that `lookup` finds at the head.
found_head :
    {V : Type 0} (j id : String) (v w : V) (m : Dict String V)
    → (j =? id) ≡ true
    → lookup id ((j, v) ∷ m) ≡ some w
    → v ≡ w
found_head j id v w m here found =
    let first : lookup id ((j, v) ∷ m) ≡ some v = lookup_cons id j v m ∙ simp here refl in
    ap (λ o. elim o [ none ↦ w | some x ↦ x ]) (sym first ∙ found)

-- The fold keeps a bound that it was given.
min_pending-le_start :
    (m : Dict String JobState) (least : ℕ)
    → least ≢ 0
    → (min_pending m least ≤ least) × (min_pending m least ≢ 0)
unfolding min_pending
min_pending-le_start [] least nz = (omega arith, nz)
min_pending-le_start ((id, s) ∷ m) least nz =
    elim (Bool-cases (is_pending s && ((least == 0) || ltb s.add_index least))) [
      | inl e ↦
          let positive : s.add_index ≢ 0 = ground (arith, e) in
          let below : s.add_index ≤ least = ground (arith, e, nz) in
          let (le, nz') = min_pending-le_start m s.add_index positive in
          rw e (omega (arith, le, below), nz')
      | inr e ↦ rw e (min_pending-le_start m least nz)
    ]

-- No pending job was added before the index that the fold finds, and with one it finds an index.
pub min_pending-le :
    (m : Dict String JobState) (least : ℕ) (id : String) (s : JobState)
    → lookup id m ≡ some s
    → is_pending s ≡ true
    → (min_pending m least ≤ s.add_index) × (min_pending m least ≢ 0)
unfolding min_pending
min_pending-le [] least id s found p = absurd (ground (arith, lookup-nil {V = JobState} id, found))
min_pending-le ((j, s') ∷ m) least id s found p = elim (Bool-cases (j =? id)) [
  | inl here ↦ head (found_head j id s' s m here found)
  | inr there ↦ min_pending-le m _ id s (sym (lookup_cons id j s' m ∙ simp there refl) ∙ found) p
]
  where
    head :
        s' ≡ s
        → (min_pending ((j, s') ∷ m) least ≤ s.add_index) × (min_pending ((j, s') ∷ m) least ≢ 0)
    head e =
        let q : is_pending s' ≡ true = ap is_pending e ∙ p in
        let same : s'.add_index ≡ s.add_index = ap (λ x. x.add_index) e in
        elim (Bool-cases (is_pending s' && ((least == 0) || ltb s'.add_index least))) [
          | inl c ↦
              let (le, nz) = min_pending-le_start m s'.add_index (ground (arith, c)) in
              rw c (omega (arith, le, same), nz)
          | inr c ↦
              let (le, nz) = min_pending-le_start m least (ground (arith, c, q)) in
              let below : least ≤ s'.add_index = ground (arith, c, q) in
              rw c (omega (arith, le, below, same), nz)
        ]

-- What is left of the entries under an index.
pub lookup-drop_entries :
    (up_to : ℕ) (m : Dict ℕ Entry) (i : ℕ)
    → Indexed m
    → lookup i (drop_entries up_to m) ≡ (if ltb i up_to then none else lookup i m)
unfolding drop_entries
lookup-drop_entries up_to [] i h = ground (arith, lookup-nil {V = Entry} i)
lookup-drop_entries up_to ((j, e) ∷ m) i (at, h) = elim (Bool-cases (ltb e.index up_to)) [
  | inl low ↦
      rw low
        (lookup-drop_entries up_to m i h ∙ ground (arith, at, low, lookup_cons i j e m, ==_iff j i))
  | inr high ↦ rw high (
      lookup_cons i j e (drop_entries up_to m)
      ∙ ground (arith, at, high, lookup_cons i j e m, ==_iff j i, lookup-drop_entries up_to m i h))
]

-- A job whose record is not outdated stays in the index.
pub lookup-drop_jobs :
    (up_to : ℕ) (m : Dict String JobState) (id : String) (s : JobState)
    → lookup id m ≡ some s
    → is_compacted up_to s ≡ false
    → lookup id (drop_jobs up_to m) ≡ some s
unfolding drop_jobs
lookup-drop_jobs up_to [] id s found keep = found
lookup-drop_jobs up_to ((j, s') ∷ m) id s found keep = elim (Bool-cases (j =? id)) [
  | inl here ↦
      let e = found_head j id s' s m here found in
      let fresh : is_compacted up_to s' ≡ false = ap (is_compacted up_to) e ∙ keep in
      simp fresh (lookup_cons id j s' (drop_jobs up_to m) ∙ simp here (ap some e))
  | inr there ↦
      let later =
        lookup-drop_jobs up_to m id s (sym (lookup_cons id j s' m ∙ simp there refl) ∙ found)
          keep in
      elim (Bool-cases (is_compacted up_to s')) [
        | inl c ↦ simp c later
        | inr c ↦ simp c (lookup_cons id j s' (drop_jobs up_to m) ∙ simp there later)
      ]
]

drop_jobs-none :
    (up_to : ℕ) (m : Dict String JobState) (id : String)
    → lookup id m ≡ none
    → lookup id (drop_jobs up_to m) ≡ none
unfolding drop_jobs
drop_jobs-none up_to [] id e = e
drop_jobs-none up_to ((j, s) ∷ m) id e = ground (
  arith,
  e,
  lookup_cons id j s m,
  lookup_cons id j s (drop_jobs up_to m),
  drop_jobs-none up_to m id,
)

-- A job whose record is outdated leaves the index.
pub lookup-drop_jobs-outdated :
    (up_to : ℕ) (m : Dict String JobState) (id : String) (s : JobState)
    → Keyed m
    → lookup id m ≡ some s
    → is_compacted up_to s ≡ true
    → lookup id (drop_jobs up_to m) ≡ none
unfolding drop_jobs
lookup-drop_jobs-outdated up_to [] id s k found out = lookup-nil id
lookup-drop_jobs-outdated up_to ((j, s') ∷ m) id s k found out = elim (Bool-cases (j =? id)) [
  | inl here ↦
      let old : is_compacted up_to s' ≡ true =
        ap (is_compacted up_to) (found_head j id s' s m here found) ∙ out in
      let gone : lookup id m ≡ none =
        subst (λ i. lookup i m ≡ none) ((string_key.beq_iff j id).0 here) k.0 in
      simp old (drop_jobs-none up_to m id gone)
  | inr there ↦
      let later =
        lookup-drop_jobs-outdated up_to m id s k.1
          (sym (lookup_cons id j s' m ∙ simp there refl) ∙ found) out in
      elim (Bool-cases (is_compacted up_to s')) [
        | inl c ↦ simp c later
        | inr c ↦ simp c (lookup_cons id j s' (drop_jobs up_to m) ∙ simp there later)
      ]
]

-- The index to keep is at most that of any pending job.
pub find_first_index_to_keep-le :
    (c : StorageCore) (id : String) (s : JobState)
    → lookup id c.job_index ≡ some s
    → is_pending s ≡ true
    → find_first_index_to_keep c ≤ s.add_index
unfolding find_first_index_to_keep
find_first_index_to_keep-le c id s found p =
    let (le, nz) = min_pending-le c.job_index 0 id s found p in
    let positive : not (min_pending c.job_index 0 == 0) ≡ true = ground (arith, nz) in
    simp positive le

compact-cases :
    (c : StorageCore)
    → (compact c ≡ (c, none))
      ⊎ ((c.first_index < find_first_index_to_keep c)
          × (compact c
              ≡ (compacted_to (find_first_index_to_keep c) c, some (find_first_index_to_keep c))))
unfolding compact
compact-cases c = elim (Bool-cases (leb (find_first_index_to_keep c) c.first_index)) [
  | inl e ↦ inl (rw (e, compact) refl)
  | inr e ↦ inr (ground (arith, e), rw (e, compact) refl)
]

pub compact-past :
    (c : StorageCore)
    → c.first_index < find_first_index_to_keep c
    → compact c ≡ (compacted_to (find_first_index_to_keep c) c, some (find_first_index_to_keep c))
unfolding compact
compact-past c lt =
    let guard : leb (find_first_index_to_keep c) c.first_index ≡ false = ground (arith, lt) in
    rw (guard, compact) refl

compacted_to-entries :
    (up_to : ℕ) (c : StorageCore) → (compacted_to up_to c).entries ≡ drop_entries up_to c.entries
unfolding compacted_to update_indices
compacted_to-entries up_to c = elim (Bool-cases (length (drop_entries up_to c.entries) == 0)) [
  | inl f ↦ rw (f, update_indices) refl
  | inr f ↦ rw (f, update_indices) refl
]

pub compacted_to-job_index :
    (up_to : ℕ) (c : StorageCore) → (compacted_to up_to c).job_index ≡ drop_jobs up_to c.job_index
unfolding compacted_to
compacted_to-job_index up_to c = refl

compacted_to-snapshot :
    (up_to : ℕ) (c : StorageCore) → (compacted_to up_to c).snapshot_meta.index ≡ up_to - 1
unfolding compacted_to
compacted_to-snapshot up_to c = refl

-- A job that is pending and was never completed survives a compaction, in a log whose entries stand
-- under their indices, where its entry is there and the snapshot ends before it: afterwards its
-- entry is in the log, its record in the index, and the snapshot still ends before the entry.
pub compact-pending :
    (c : StorageCore) (id : String) (s : JobState) (e : Entry)
    → Indexed c.entries
    → lookup id c.job_index ≡ some s
    → is_pending s ≡ true
    → s.complete_index ≡ 0
    → lookup s.add_index c.entries ≡ some e
    → c.snapshot_meta.index < s.add_index
    → (lookup s.add_index (compact c).0.entries ≡ some e)
      × (lookup id (compact c).0.job_index ≡ some s)
      × ((compact c).0.snapshot_meta.index < s.add_index)
compact-pending c id s e indexed found p never there above =
    let up_to = find_first_index_to_keep c in
    let le : up_to ≤ s.add_index = find_first_index_to_keep-le c id s found p in
    let fresh : is_compacted up_to s ≡ false = ground (arith, le, never) in
    elim (compact-cases c) [
      | inl q ↦ rw q (there, found, above)
      | inr (lt, q) ↦ rw q (
        rw (compacted_to-entries up_to c)
            (lookup-drop_entries up_to c.entries s.add_index indexed ∙ ground (arith, le, there)),
        rw (compacted_to-job_index up_to c) (lookup-drop_jobs up_to c.job_index id s found fresh),
        omega (arith, lt, le, compacted_to-snapshot up_to c),
      )
    ]
