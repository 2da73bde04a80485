-- ===== src/Base/Dict.antt =====
-- Go maps as association lists. The order of the list stands for the order, which Go leaves open,
-- in which `range` visits the map; a statement for every list covers every such order.
use mathlib.Core.Path.{◌≡◌, refl, ◌∙◌}
use mathlib.Core.Logic.{inl, inr}
use mathlib.Core.List.{List, [], ◌∷◌}
use mathlib.Core.Option.{Option, none, some}
use native.Mathlib.Omega.{arith}
use cue.Base.Tests.{if◌then◌else◌, Bool-cases}
use cue.Base.Key.{Key, ◌=?◌}

abbrev pub Dict {ℓ κ} : Type ℓ → Type κ → Type (ℓ ⊔ κ)
Dict K V = List (K × V)

module _ {ℓ κ} {K : Type ℓ} {V : Type κ} ⦃k : Key K⦄ where
  -- `v, exists := m[i]`
  unfoldable pub lookup : K → Dict K V → Option V
  lookup i [] = none
  lookup i ((j, v) ∷ m) = if j =? i then some v else lookup i m

  -- `m[i] = v`
  unfoldable pub insert : K → V → Dict K V → Dict K V
  insert i v [] = (i, v) ∷ []
  insert i v ((j, w) ∷ m) = if j =? i then (i, v) ∷ m else (j, w) ∷ insert i v m

  -- `delete(m, i)`
  unfoldable pub erase : K → Dict K V → Dict K V
  erase i [] = []
  erase i ((j, w) ∷ m) = if j =? i then erase i m else (j, w) ∷ erase i m

  pub lookup-insert :
      (i j : K) (v : V) (m : Dict K V)
      → lookup j (insert i v m) ≡ (if i =? j then some v else lookup j m)
  unfolding lookup insert
  lookup-insert i j v [] = refl
  lookup-insert i j v ((h, w) ∷ m) =
      ground (arith, k.beq_iff i j, k.beq_iff h i, k.beq_iff h j, lookup-insert i j v m)

  pub lookup-erase :
      (i j : K) (m : Dict K V) → lookup j (erase i m) ≡ (if i =? j then none else lookup j m)
  unfolding lookup erase
  lookup-erase i j [] = ground arith
  lookup-erase i j ((h, w) ∷ m) =
      ground (arith, k.beq_iff i j, k.beq_iff h i, k.beq_iff h j, lookup-erase i j m)

  -- A Go map has each key once.
  abbrev pub Keyed : Dict K V → Type κ
  Keyed [] = Unit
  Keyed ((j, v) ∷ m) = (lookup j m ≡ none) × Keyed m

  pub Keyed-insert : (i : K) (v : V) (m : Dict K V) → Keyed m → Keyed (insert i v m)
  unfolding lookup insert
  Keyed-insert i v [] h = (refl, tt)
  Keyed-insert i v ((j, w) ∷ m) h = elim (Bool-cases (j =? i)) [
    | inl e ↦ rw e (rw (← (k.beq_iff j i).0 e) h.0, h.1)
    | inr e ↦ rw e (
      lookup-insert i j v m ∙ ground (arith, k.beq_iff i j, k.beq_iff j i, h.0),
      Keyed-insert i v m h.1,
    )
  ]

  pub Keyed-erase : (i : K) (m : Dict K V) → Keyed m → Keyed (erase i m)
  unfolding lookup erase
  Keyed-erase i [] h = tt
  Keyed-erase i ((j, w) ∷ m) h = elim (Bool-cases (j =? i)) [
    | inl e ↦ rw e (Keyed-erase i m h.1)
    | inr e ↦ rw e (lookup-erase i j m ∙ ground (arith, h.0), Keyed-erase i m h.1)
  ]

  pub lookup_cons :
      (i j : K) (v : V) (m : Dict K V)
      → lookup i ((j, v) ∷ m) ≡ (if j =? i then some v else lookup i m)
  unfolding lookup
  lookup_cons i j v m = refl

  pub lookup-nil : (i : K) → lookup i [] ≡ none
  unfolding lookup
  lookup-nil i = refl
