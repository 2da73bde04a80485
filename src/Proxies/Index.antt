-- ===== src/Proxies/Index.antt =====
-- The list of available proxies and the index into it agree.
use cue.Base.{
  ℕ, zero, suc, ◌-◌, ◌≡◌, refl, List, [], ◌∷◌, ◌++◌, none, some, String, false, arith, ltb, ◌==◌,
  if◌then◌else◌, length, get_elem?, set, take, get_elem?-set, get_elem?-append,
  lt-length_of_get_elem?, get_elem?-within, Option-cases, is_some, inl, inr, done,
}
use cue.Base.Key.{string_key, ◌=?◌}
use cue.Base.Dict.{Dict, lookup, insert, lookup-insert, lookup-erase}
use cue.Proxies.{ProxyMap, swapped_out, remove_from_available}

pub record Agrees (available : List String) (index : Dict String ℕ) : Type 0 where
  pub to_slot : (id : String) (i : ℕ) → lookup id index ≡ some i → get_elem? available i ≡ some id
  pub to_index : (id : String) (i : ℕ) → get_elem? available i ≡ some id → lookup id index ≡ some i

pub append-Agrees :
    (id : String) (available : List String) (index : Dict String ℕ)
    → Agrees available index
    → lookup id index ≡ none
    → Agrees (available ++ id ∷ []) (insert id (length available) index)
append-Agrees id available index v fresh =
    let look = λ (k : String). lookup-insert id k (length available) index in
    let slots = get_elem?-append available id in
    let same = λ (k : String). string_key.beq_iff id k in
    record {
      to_slot = λ k i e.
          ground
            (arith, look k, slots i, same k, v.to_slot k i, lt-length_of_get_elem? available i k);
      to_index = λ k i e. ground (arith, look k, slots i, same k, v.to_index k i);
    }

-- The loop bound of `take` in one conditional.
get_elem?-take {ℓ} :
    {A : Type ℓ} (n : ℕ) (xs : List A) (i : ℕ)
    → get_elem? (take n xs) i ≡ (if ltb i n then get_elem? xs i else none)
get_elem?-take zero xs i = ground arith
get_elem?-take (suc n) [] i = ground arith
get_elem?-take (suc n) (x ∷ xs) zero = ground arith
get_elem?-take (suc n) (x ∷ xs) (suc i) = ground (arith, get_elem?-take n xs i)

module _ (pm : ProxyMap) (id last_id : String) (idx : ℕ)
    (v : Agrees pm.available pm.available_index) (at : lookup id pm.available_index ≡ some idx)
    (there : get_elem? pm.available (length pm.available - 1) ≡ some last_id) where
  abbrev last : ℕ
  last = length pm.available - 1

  slot_after :
      (i : ℕ)
      → get_elem? (swapped_out pm id idx last_id).available i ≡ (
          if ltb i last
          then (if idx == i then some last_id else get_elem? pm.available i)
          else none)
  unfolding swapped_out
  slot_after i =
      let lt = lt-length_of_get_elem? pm.available idx id (v.to_slot id idx at) in
      ground (
        arith,
        get_elem?-take last (set pm.available idx last_id) i,
        get_elem?-set pm.available idx i last_id,
      )

  pub index_after :
      (k : String)
      → lookup k (swapped_out pm id idx last_id).available_index
        ≡ (if id =? k then none else if last_id =? k then some idx else lookup k pm.available_index)
  unfolding swapped_out
  index_after k = ground (
    arith,
    lookup-erase id k (insert last_id idx pm.available_index),
    lookup-insert last_id k idx pm.available_index,
  )

  pub swapped_out-Agrees :
      Agrees
        (swapped_out pm id idx last_id).available
        (swapped_out pm id idx last_id).available_index
  swapped_out-Agrees =
      let at_last = v.to_index last_id last there in
      let here = v.to_slot id idx at in
      let lt = lt-length_of_get_elem? pm.available idx id here in
      record {
        to_slot = λ k i e. ground (
          arith,
          slot_after i,
          index_after k,
          v.to_slot k i,
          lt-length_of_get_elem? pm.available i k,
          string_key.beq_iff id k,
          string_key.beq_iff last_id k,
        );
        to_index = λ k i e. ground (
          arith,
          slot_after i,
          index_after k,
          v.to_index k i,
          string_key.beq_iff id k,
          string_key.beq_iff last_id k,
        );
      }

-- Taking a proxy off the list: it does not panic, keeps the agreement, and changes no other proxy.
pub record Removed (pm : ProxyMap) (id : String) (pm' : ProxyMap) : Type 0 where
  pub agrees : Agrees pm'.available pm'.available_index
  pub members :
      (k : String)
      → is_some (lookup k pm'.available_index)
        ≡ (if id =? k then false else is_some (lookup k pm.available_index))
  pub kept : pm'.proxies ≡ pm.proxies

pub remove_from_available-Removed :
    (pm : ProxyMap) (id : String)
    → Agrees pm.available pm.available_index
    → (pm' : ProxyMap) × (remove_from_available pm id ≡ done pm') × Removed pm id pm'
unfolding remove_from_available
remove_from_available-Removed pm id v = elim (Option-cases (lookup id pm.available_index)) [
  | inl e ↦ (
    pm,
    rw (e, remove_from_available) refl,
    record { agrees = v; members = λ k. ground (arith, string_key.beq_iff id k); kept = refl },
  )
  | inr (idx, e) ↦
      let lt = lt-length_of_get_elem? pm.available idx id (v.to_slot id idx e) in
      let (last_id, there) =
        get_elem?-within pm.available (length pm.available - 1) (omega arith) in
      let at_last = v.to_index last_id (length pm.available - 1) there in
      (
        swapped_out pm id idx last_id,
        rw (e, remove_from_available) (rw there refl),
        record {
          agrees = swapped_out-Agrees pm id last_id idx v e there;
          members = λ k.
              ground
                (arith, index_after pm id last_id idx v e there k, string_key.beq_iff last_id k);
          kept = refl;
        },
      )
]
