-- ===== src/Storage/Read.antt =====
-- internal/cluster/raft_storage.go: what `Entries` reads.
use cue.Base.{
  ℕ, zero, suc, ◌+◌, ◌-◌, ◌≤◌, ◌<◌, ◌≡◌, refl, subst, inl, inr, false, ◌&&◌, some, ltb, arith,
  Bool-cases, List, [], ◌∷◌, length, Result, ok, err,
}
use cue.Base.Key.{nat_key}
use cue.Base.Dict.{lookup}
use cue.Storage.{Entry, StorageCore, ReadError, entries_from, entries_between}

-- The entries stand at `idx`, `idx + 1` and so on of the log.
abbrev pub RunOf : StorageCore → ℕ → List Entry → Type 0
RunOf c idx [] = Unit
RunOf c idx (e ∷ es) = (lookup idx c.entries ≡ some e) × RunOf c (suc idx) es

-- The log has an entry at each of the `count` indices from `idx` on.
abbrev pub HasRun : StorageCore → ℕ → ℕ → Type 0
HasRun c idx zero = Unit
HasRun c idx (suc count) =
    ((e : Entry) × (lookup idx c.entries ≡ some e)) × HasRun c (suc idx) count

abbrev pub total_size : (Entry → ℕ) → List Entry → ℕ
total_size size [] = 0
total_size size (e ∷ es) = size e + total_size size es

-- What `Entries` returns for `count` indices: a run of the log, within the size, cut short only by
-- the size: the entry after it would exceed the limit.
pub record Reads (size : Entry → ℕ) (c : StorageCore) (max_size idx count total : ℕ)
    (es : List Entry) : Type 0 where
  pub run : RunOf c idx es
  pub within : (total ≤ max_size) → 0 < max_size → total + total_size size es ≤ max_size
  pub short : length es ≤ count
  pub cut :
      length es < count
      → (e : Entry) × (lookup (idx + length es) c.entries ≡ some e)
        × (0 < max_size)
        × (max_size < total + total_size size es + size e)

-- What the loop returns where the log has every entry asked for.
abbrev pub ReadsRun :
    (Entry → ℕ) → StorageCore → ℕ → ℕ → ℕ → ℕ → Result ReadError (List Entry) → Type 0
ReadsRun size c max_size idx count total (ok es) = Reads size c max_size idx count total es
ReadsRun size c max_size idx count total (err e) = ⊥

entries_from-Reads :
    (size : Entry → ℕ) (c : StorageCore) (max_size idx count total : ℕ)
    → HasRun c idx count
    → ReadsRun size c max_size idx count total (entries_from size c max_size idx count total)
unfolding entries_from
entries_from-Reads size c max_size idx zero total h = record {
  run = tt;
  within = λ le pos. omega arith;
  short = omega arith;
  cut = λ lt. absurd (omega (arith, lt));
}
entries_from-Reads size c max_size idx (suc count) total ((e, found), h) =
    rw (found, entries_from)
      (elim (Bool-cases (ltb 0 max_size && ltb max_size (total + size e))) [
        | inl over ↦ rw over record {
          run = tt;
          within = λ le pos. omega (arith, le);
          short = omega arith;
          cut = λ lt. (e, at_start, ground (arith, over), ground (arith, over));
        }
        | inr fits ↦ rw fits (
            onward (entries_from size c max_size (suc idx) count (total + size e)) fits
              (entries_from-Reads size c max_size (suc idx) count (total + size e) h))
      ])
  where
    at_start : lookup (idx + 0) c.entries ≡ some e
    at_start = subst (λ i. lookup i c.entries ≡ some e) (omega arith) found

    longer :
        (es : List Entry)
        → (ltb 0 max_size && ltb max_size (total + size e)) ≡ false
        → Reads size c max_size (suc idx) count (total + size e) es
        → Reads size c max_size idx (suc count) total (e ∷ es)
    longer es fits r = record {
      run = (found, r.run);
      within = λ le pos. omega (arith, r.within (fitting pos) pos);
      short = omega (arith, r.short);
      cut = λ lt.
          let (e', there, pos, over) = r.cut (omega (arith, lt)) in
          (
            e',
            subst (λ i. lookup i c.entries ≡ some e') (omega arith) there,
            pos,
            omega (arith, over),
          );
    }
      where
        fitting : 0 < max_size → total + size e ≤ max_size
        fitting pos = ground (arith, fits, pos)

    onward :
        (r : Result ReadError (List Entry))
        → (ltb 0 max_size && ltb max_size (total + size e)) ≡ false
        → ReadsRun size c max_size (suc idx) count (total + size e) r
        → ReadsRun size c max_size idx
            (suc count)
            total
            (elim r as (λ _. Result ReadError (List Entry)) [
              | err e' ↦ err e'
              | ok more ↦ ok (e ∷ more)
            ])
    onward (ok es) fits r = longer es fits r
    onward (err e') fits r = elim r [ ]

-- Within the indices that the log says it has, and with an entry at each, `Entries` succeeds. Its
-- result is the run of the log from `lo` on, of at most `hi - lo` entries, whose sizes do not exceed
-- a positive limit, and it ends early only before an entry that would exceed the limit.
pub entries_between-Reads :
    (size : Entry → ℕ) (c : StorageCore) (lo hi max_size : ℕ)
    → c.first_index ≤ lo
    → hi ≤ c.last_index + 1
    → HasRun c lo (hi - lo)
    → (es : List Entry) × (entries_between size c lo hi max_size ≡ ok es)
      × Reads size c max_size lo (hi - lo) 0 es
unfolding entries_between
entries_between-Reads size c lo hi max_size from to h =
    let low : ltb lo c.first_index ≡ false = ground (arith, from) in
    let high : ltb (c.last_index + 1) hi ≡ false = ground (arith, to) in
    let (es, e, r) =
      taken (entries_from size c max_size lo (hi - lo) 0)
        (entries_from-Reads size c max_size lo (hi - lo) 0 h) in
    (es, simp (low, high, e) refl, r)
  where
    taken :
        (r : Result ReadError (List Entry))
        → ReadsRun size c max_size lo (hi - lo) 0 r
        → (es : List Entry) × (r ≡ ok es) × Reads size c max_size lo (hi - lo) 0 es
    taken (ok es) r = (es, refl, r)
    taken (err e) r = elim r [ ]
