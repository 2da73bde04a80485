-- ===== src/Proxies/Tests.antt =====
-- internal/state/proxy_map.go: the theorems, applied to a map with one proxy.
use cue.Base.{◌≡◌, refl, String, some, arith, done, if◌then◌else◌, [], ◌∷◌, ◌>>=◌}
use cue.Base.Int.{pos}
use cue.Base.Key.{string_key, ◌=?◌}
use cue.Base.Dict.{lookup, insert}
use cue.Proxies.{ProxyState, ProxyMap, new_proxy_map, update, get_next_available}
use cue.Proxies.Index.{append-Agrees}
use cue.Proxies.Invariant.{IsValid, new_proxy_map-IsValid, update-IsValid}
use cue.Proxies.Rotation.{turn, Picks, calls, get_next_available-fair}

abbrev beating : ProxyState
beating = record { consumers = pos 2; last_heartbeat = pos 100 }

abbrev one_proxy : ProxyMap
one_proxy = record {
  proxies = ("a", beating) ∷ [];
  available = "a" ∷ [];
  available_index = ("a", 0) ∷ [];
  round_robin = 0;
}

one_proxy-IsValid : IsValid one_proxy
unfolding lookup insert
one_proxy-IsValid = record {
  agrees = append-Agrees "a" [] [] new_proxy_map-IsValid.agrees refl;
  listed = λ k. ground arith;
  keyed = (refl, tt);
}

update-IsValid_example :
    (pm' : ProxyMap) × (update new_proxy_map "a" (pos 2) (pos 100) ≡ done pm')
    × IsValid pm'
    × ((k : String)
        → lookup k pm'.proxies ≡ (
            if "a" =? k
            then some (record { consumers = pos 2; last_heartbeat = pos 100 })
            else lookup k new_proxy_map.proxies))
update-IsValid_example = update-IsValid new_proxy_map "a" (pos 2) (pos 100) new_proxy_map-IsValid

get_next_available-fair_example :
    Picks one_proxy (turn one_proxy 1) (calls 1 one_proxy >>= get_next_available)
get_next_available-fair_example =
    get_next_available-fair 1 one_proxy one_proxy-IsValid (omega arith)
