-- ===== src/Proxies.antt =====
-- internal/state/proxy_map.go: the proxies that a partition knows, and the round robin over those
-- with free consumers. An index out of range and a missing proxy, which panic in Go, are `panics`.
-- Times are in milliseconds, and neither they nor the scores wrap around.
pub mod Index
pub mod Invariant
pub mod Rotation
pub mod Cleanup
mod Tests
use cue.Base.{
  ℕ, zero, suc, is_some, ◌+◌, ◌-◌, ◌%◌, Bool, true, false, not, ◌&&◌, List, [], ◌∷◌, ◌++◌, Option,
  none, some, String, if◌then◌else◌, length, get_elem?, set, take, Run, done, panics, ◌>>=◌,
}
use cue.Base.Int.{ℤ, pos, ◌-ℤ◌, ◌*ℤ◌, ltb_ℤ}
use cue.Base.Key.{string_key}
use cue.Base.Dict.{Dict, lookup, insert, erase}

pub record ProxyState : Type 0 where
  pub consumers : ℤ
  pub last_heartbeat : ℤ

pub record ProxyMap : Type 0 where
  pub proxies : Dict String ProxyState
  pub available : List String
  pub available_index : Dict String ℕ
  pub round_robin : ℕ

abbrev pub new_proxy_map : ProxyMap
new_proxy_map = record { proxies = []; available = []; available_index = []; round_robin = 0 }

-- `state.Consumers > 0`, where a proxy that is not known has the zero state
abbrev pub has_consumers : Option ProxyState → Bool
has_consumers none = false
has_consumers (some state) = ltb_ℤ (pos 0) state.consumers

unfoldable pub add_to_available : ProxyMap → String → ProxyMap
add_to_available pm proxy_id = elim (lookup proxy_id pm.available_index) [
  | some i ↦ pm
  | none ↦ record pm {
    available = pm.available ++ proxy_id ∷ [];
    available_index = insert proxy_id (length pm.available) pm.available_index;
  }
]

-- The map without the available proxy at `idx`, whose place the last one takes.
unfoldable pub swapped_out : ProxyMap → String → ℕ → String → ProxyMap
swapped_out pm proxy_id idx last_id = record pm {
  available = take (length pm.available - 1) (set pm.available idx last_id);
  available_index = erase proxy_id (insert last_id idx pm.available_index);
}

unfoldable pub remove_from_available : ProxyMap → String → Run ProxyMap
unfolding swapped_out
remove_from_available pm proxy_id = elim (lookup proxy_id pm.available_index) [
  | none ↦ done pm
  | some idx ↦ elim (get_elem? pm.available (length pm.available - 1)) [
    | none ↦ panics
    | some last_id ↦ done (swapped_out pm proxy_id idx last_id)
  ]
]

-- `Update`
unfoldable pub update : ProxyMap → String → ℤ → ℤ → Run ProxyMap
unfolding add_to_available remove_from_available
update pm proxy_id score timestamp =
    let state : ProxyState = record { consumers = score; last_heartbeat = timestamp } in
    let was_available = has_consumers (lookup proxy_id pm.proxies) in
    let is_available = ltb_ℤ (pos 0) score in
    let pm' = record pm { proxies = insert proxy_id state pm.proxies } in
    if not was_available && is_available
    then done (add_to_available pm' proxy_id)
    else if was_available && not is_available
    then remove_from_available pm' proxy_id
    else done pm'

-- The loop of `GetNextAvailable`, with the rounds that are left.
unfoldable pub next_from : ProxyMap → ℕ → ℕ → ℕ → Run (ProxyMap × Option (String × ℤ))
next_from pm start zero i = done (pm, none)
next_from pm start (suc rounds) i =
    let idx = (start + i) % length pm.available in
    elim (get_elem? pm.available idx) [
      | none ↦ panics
      | some proxy_id ↦ elim (lookup proxy_id pm.proxies) [
        | none ↦ panics
        | some state ↦ elim (ltb_ℤ (pos 0) state.consumers) [
          | true ↦ done (
            record pm { round_robin = (idx + 1) % length pm.available },
            some (proxy_id, state.consumers),
          )
          | false ↦ next_from pm start rounds (suc i)
        ]
      ]
    ]

-- `GetNextAvailable`; without a proxy the loop has no rounds.
unfoldable pub get_next_available : ProxyMap → Run (ProxyMap × Option (String × ℤ))
unfolding next_from
get_next_available pm = next_from pm pm.round_robin (length pm.available) 0

-- `rebuildAvailableCache`: the loop over the proxies
unfoldable pub rebuild :
    Dict String ProxyState → List String → Dict String ℕ → List String × Dict String ℕ
rebuild [] available index = (available, index)
rebuild ((id, state) ∷ m) available index =
    let more = ltb_ℤ (pos 0) state.consumers in
    rebuild m (if more then available ++ id ∷ [] else available)
      (if more then insert id (length available) index else index)

unfoldable pub rebuild_available_cache : ProxyMap → ProxyMap
unfolding rebuild
rebuild_available_cache pm =
    let (available, index) = rebuild pm.proxies [] [] in
    record pm { available = available; available_index = index; round_robin = 0 }

-- `now-state.LastHeartbeat > timeout`
abbrev pub is_stale : ℤ → ℤ → ProxyState → Bool
is_stale now timeout state = ltb_ℤ timeout (now -ℤ state.last_heartbeat)

-- The loop of `CleanupStale` over the entries that are still to be visited.
unfoldable pub drop_stale : ℤ → ℤ → Dict String ProxyState → ProxyMap → Bool → Run (ProxyMap × Bool)
unfolding remove_from_available
drop_stale now timeout [] pm cleaned = done (pm, cleaned)
drop_stale now timeout ((id, state) ∷ m) pm cleaned = elim (is_stale now timeout state) [
  | true ↦ remove_from_available (record pm { proxies = erase id pm.proxies }) id >>= λ pm'.
      drop_stale now timeout m pm' true
  | false ↦ drop_stale now timeout m pm cleaned
]

-- `CleanupStale`
unfoldable pub cleanup_stale : ProxyMap → ℤ → ℤ → Run ProxyMap
unfolding drop_stale rebuild_available_cache
cleanup_stale pm now timeout_seconds =
    drop_stale now (timeout_seconds *ℤ pos 1000) pm.proxies pm false >>= λ (pm', cleaned).
    done (if cleaned then rebuild_available_cache pm' else pm')

-- `Exists`
unfoldable pub exists : ProxyMap → String → Bool
exists pm proxy_id = is_some (lookup proxy_id pm.proxies)
