-- ===== src/Proxies/Invariant.antt =====
-- The invariant of the proxy map, and that `Update` keeps it.
use cue.Base.{
  ◌≡◌, refl, some, String, true, arith, if◌then◌else◌, length, Bool-cases, Option-cases, is_some,
  inl, inr, done,
}
use cue.Base.Int.{ℤ, pos, ltb_ℤ}
use cue.Base.Key.{string_key, ◌=?◌}
use cue.Base.Dict.{lookup, insert, lookup-insert, Keyed, Keyed-insert}
use cue.Proxies.{ProxyState, ProxyMap, new_proxy_map, has_consumers, add_to_available, update}
use cue.Proxies.Index.{Agrees, append-Agrees, remove_from_available-Removed}

pub record IsValid (pm : ProxyMap) : Type 0 where
  pub agrees : Agrees pm.available pm.available_index
  -- exactly the proxies with free consumers are on the list
  pub listed :
      (k : String) → is_some (lookup k pm.available_index) ≡ has_consumers (lookup k pm.proxies)
  pub keyed : Keyed pm.proxies

pub new_proxy_map-IsValid : IsValid new_proxy_map
unfolding lookup
new_proxy_map-IsValid = record {
  agrees = record { to_slot = λ id i e. ground arith; to_index = λ id i e. ground arith };
  listed = λ k. refl;
  keyed = tt;
}

pub record Added (pm : ProxyMap) (id : String) (pm' : ProxyMap) : Type 0 where
  pub agrees : Agrees pm'.available pm'.available_index
  pub members :
      (k : String)
      → is_some (lookup k pm'.available_index)
        ≡ (if id =? k then true else is_some (lookup k pm.available_index))
  pub kept : pm'.proxies ≡ pm.proxies

add_to_available-Added :
    (pm : ProxyMap) (id : String)
    → Agrees pm.available pm.available_index
    → Added pm id (add_to_available pm id)
unfolding add_to_available
add_to_available-Added pm id v = elim (Option-cases (lookup id pm.available_index)) [
  | inl e ↦
      rw (e, add_to_available)
        (record {
          agrees = append-Agrees id pm.available pm.available_index v e;
          members =
              λ k. ground (arith, lookup-insert id k (length pm.available) pm.available_index);
          kept = refl;
        })
  | inr (i, e) ↦
      rw (e, add_to_available)
        (record { agrees = v; members = λ k. ground (arith, string_key.beq_iff id k); kept = refl })
]

-- On a well-formed map `Update` does not panic, keeps the invariant, and stores the score and the
-- time of the proxy: so afterwards exactly the proxies with a positive score can be picked.
pub update-IsValid :
    (pm : ProxyMap) (id : String) (score time : ℤ)
    → IsValid pm
    → (pm' : ProxyMap) × (update pm id score time ≡ done pm')
      × IsValid pm'
      × ((k : String)
          → lookup k pm'.proxies ≡ (
              if id =? k
              then some (record { consumers = score; last_heartbeat = time })
              else lookup k pm.proxies))
unfolding update
update-IsValid pm id score time v =
    let state : ProxyState = record { consumers = score; last_heartbeat = time } in
    let pm1 = record pm { proxies = insert id state pm.proxies } in
    let look = λ (k : String). lookup-insert id k state pm.proxies in
    let keyed = Keyed-insert id state pm.proxies v.keyed in
    elim (Bool-cases (has_consumers (lookup id pm.proxies))) [
      | inl was ↦ elim (Bool-cases (ltb_ℤ (pos 0) score)) [
        | inl is ↦ (
          pm1,
          rw (was, is) refl,
          record {
            agrees = v.agrees;
            listed = λ k. ground (arith, look k, v.listed k, string_key.beq_iff id k);
            keyed = keyed;
          },
          look,
        )
        | inr isnt ↦
            let (pm2, e, r) = remove_from_available-Removed pm1 id v.agrees in
            (
              pm2,
              rw (was, isnt) e,
              record {
                agrees = r.agrees;
                listed = λ k. rw r.kept (ground (arith, r.members k, look k, v.listed k));
                keyed = rw r.kept keyed;
              },
              rw r.kept look,
            )
      ]
      | inr wasnt ↦ elim (Bool-cases (ltb_ℤ (pos 0) score)) [
        | inl is ↦
            let r = add_to_available-Added pm1 id v.agrees in
            (
              add_to_available pm1 id,
              rw (wasnt, is) refl,
              record {
                agrees = r.agrees;
                listed = λ k. rw r.kept (ground (arith, r.members k, look k, v.listed k));
                keyed = rw r.kept keyed;
              },
              rw r.kept look,
            )
        | inr isnt ↦ (
          pm1,
          rw (wasnt, isnt) refl,
          record {
            agrees = v.agrees;
            listed = λ k. ground (arith, look k, v.listed k, string_key.beq_iff id k);
            keyed = keyed;
          },
          look,
        )
      ]
    ]
