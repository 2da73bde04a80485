-- ===== src/Proxies/Rotation.antt =====
-- The round robin of `GetNextAvailable`.
use native.Mathlib.Nat.{mod-lt, mod-add-mod}
use cue.Base.{
  ℕ, zero, suc, ◌+◌, ◌-◌, ◌%◌, ◌<◌, ◌≡◌, refl, ap, ◌∙◌, [], Option, none, some, String, true, arith,
  length, get_elem?, get_elem?-within, Run, done, ◌>>=◌,
}
use cue.Base.Int.{ℤ, pos, ltb_ℤ}
use cue.Base.Key.{string_key}
use cue.Base.Dict.{lookup}
use cue.Proxies.{ProxyState, ProxyMap, has_consumers, next_from, get_next_available}
use cue.Proxies.Invariant.{IsValid}

-- The slot whose turn it is, counted from the round robin's position.
abbrev pub turn : ProxyMap → ℕ → ℕ
turn pm k = (pm.round_robin + k) % length pm.available

-- The map with the round robin set to the slot behind `idx`.
abbrev pub advanced : ProxyMap → ℕ → ProxyMap
advanced pm idx = record pm { round_robin = (idx + 1) % length pm.available }

next_from-first :
    (pm : ProxyMap) (start rounds i : ℕ) {id : String} {state : ProxyState}
    → get_elem? pm.available ((start + i) % length pm.available) ≡ some id
    → lookup id pm.proxies ≡ some state
    → ltb_ℤ (pos 0) state.consumers ≡ true
    → next_from pm start (suc rounds) i
      ≡ done (advanced pm ((start + i) % length pm.available), some (id, state.consumers))
unfolding next_from
next_from-first pm start rounds i at known free = rw (at, next_from) (rw known (rw free refl))

-- What one call of `GetNextAvailable` picks for the slot `idx`.
pub record Picks (pm : ProxyMap) (idx : ℕ) (r : Run (ProxyMap × Option (String × ℤ))) : Type 0 where
  pub id : String
  pub state : ProxyState
  pub slot : get_elem? pm.available idx ≡ some id
  pub known : lookup id pm.proxies ≡ some state
  pub free : ltb_ℤ (pos 0) state.consumers ≡ true
  pub result : r ≡ done (advanced pm idx, some (id, state.consumers))

pub get_next_available-Picks :
    (pm : ProxyMap)
    → IsValid pm
    → 0 < length pm.available
    → Picks pm (turn pm 0) (get_next_available pm)
unfolding get_next_available
get_next_available-Picks pm v some_there =
    let n = length pm.available in
    let (id, at) =
      get_elem?-within pm.available (turn pm 0) (mod-lt (pm.round_robin + 0) some_there) in
    let indexed = v.agrees.to_index id (turn pm 0) at in
    let listed = v.listed id in
    let (state, known) = known_state (lookup id pm.proxies) (ground arith) in
    let free : ltb_ℤ (pos 0) state.consumers ≡ true = ground arith in
    let one : n ≡ suc (n - 1) = omega arith in
    record {
      id = id;
      state = state;
      slot = at;
      known = known;
      free = free;
      result =
          ap (λ r. next_from pm pm.round_robin r 0) one
          ∙ next_from-first pm pm.round_robin (n - 1) 0 at known free;
    }
  where
    known_state : (o : Option ProxyState) → has_consumers o ≡ true → (s : ProxyState) × (o ≡ some s)
    known_state none h = absurd (ground arith)
    known_state (some s) h = (s, refl)

-- Several calls in a row.
pub calls : ℕ → ProxyMap → Run ProxyMap
calls zero pm = done pm
calls (suc k) pm = get_next_available pm >>= λ (pm', picked). calls k pm'

-- In a well-formed map with an available proxy, while only `GetNextAvailable` is called, the call
-- after `k` others picks the proxy `k` places on, modulo the length of the list: each available
-- proxy has its turn once in every round.
pub get_next_available-fair :
    (k : ℕ) (pm : ProxyMap)
    → IsValid pm
    → 0 < length pm.available
    → Picks pm (turn pm k) (calls k pm >>= get_next_available)
unfolding calls
get_next_available-fair zero pm v some_there = get_next_available-Picks pm v some_there
get_next_available-fair (suc k) pm v some_there =
    let first = get_next_available-Picks pm v some_there in
    let pm1 = advanced pm (turn pm 0) in
    let v1 : IsValid pm1 = record { agrees = v.agrees; listed = v.listed; keyed = v.keyed } in
    let rest = get_next_available-fair k pm1 v1 some_there in
    let n = length pm.available in
    let same : turn pm1 k ≡ turn pm (suc k) =
      mod-add-mod (turn pm 0 + 1) n k
      ∙ ap (λ a. a % n) (omega arith)
      ∙ mod-add-mod (pm.round_robin + 0) n (suc k)
      ∙ ap (λ a. a % n) (omega arith) in
    rw (first.result, ← same)
      (record {
        id = rest.id;
        state = rest.state;
        slot = rest.slot;
        known = rest.known;
        free = rest.free;
        result = rest.result;
      })

-- Without an available proxy nothing is picked, and nothing changes.
pub get_next_available-none :
    (pm : ProxyMap) → pm.available ≡ [] → get_next_available pm ≡ done (pm, none)
unfolding get_next_available next_from
get_next_available-none pm e = ap (λ l. next_from pm pm.round_robin (length l) 0) e
