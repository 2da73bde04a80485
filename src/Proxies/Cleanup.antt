-- ===== src/Proxies/Cleanup.antt =====
-- `CleanupStale`: what it forgets, and that the rebuilt list is right.
use cue.Base.{
  ℕ, ◌≡◌, refl, sym, ap, subst, ◌∙◌, List, [], ◌∷◌, ◌++◌, none, some, String, Bool, true, false,
  arith, if◌then◌else◌, length, Bool-cases, is_some, inl, inr, done, ◌||◌,
}
use cue.Base.Int.{ℤ, pos, ltb_ℤ, ◌*ℤ◌}
use cue.Base.Key.{string_key}
use cue.Base.Dict.{
  Dict, lookup, insert, erase, lookup-insert, lookup-erase, lookup_cons, lookup-nil, Keyed,
  Keyed-erase,
}
use cue.Proxies.{
  ProxyState, ProxyMap, has_consumers, is_stale, rebuild, rebuild_available_cache, drop_stale,
  cleanup_stale,
}
use cue.Proxies.Index.{Agrees, append-Agrees, remove_from_available-Removed}
use cue.Proxies.Invariant.{IsValid}

-- The rebuilt list and index agree, and hold the proxies with free consumers.
record Rebuilt (m : Dict String ProxyState) (index : Dict String ℕ)
    (r : List String × Dict String ℕ) : Type 0 where
  agrees : Agrees r.0 r.1
  members :
      (k : String)
      → is_some (lookup k r.1) ≡ (has_consumers (lookup k m) || is_some (lookup k index))

rebuild-Rebuilt :
    (m : Dict String ProxyState) (available : List String) (index : Dict String ℕ)
    → Keyed m
    → Agrees available index
    → ((k : String) → is_some (lookup k m) ≡ true → lookup k index ≡ none)
    → Rebuilt m index (rebuild m available index)
unfolding rebuild
rebuild-Rebuilt [] available index keyed v fresh = record {
  agrees = v;
  members = λ k. ground (arith, lookup-nil {V = ProxyState} k);
}
rebuild-Rebuilt ((id, state) ∷ m) available index keyed v fresh =
    elim (Bool-cases (ltb_ℤ (pos 0) state.consumers)) [
      | inl free ↦
          let here =
            fresh id
              (ap is_some (lookup_cons id id state m) ∙ ground (arith, string_key.beq_iff id id)) in
          let look = λ (k : String). lookup-insert id k (length available) index in
          let rest =
            rebuild-Rebuilt m (available ++ id ∷ []) (insert id (length available) index) keyed.1
              (append-Agrees id available index v here)
              (λ k h.
                look k
                ∙ ground
                    (arith, fresh k, lookup_cons k id state m, keyed.0, string_key.beq_iff id k)) in
          rw free (record {
            agrees = rest.agrees;
            members = λ k.
                rest.members k
                ∙ ground
                    (arith, look k, lookup_cons k id state m, keyed.0, string_key.beq_iff id k);
          })
      | inr none_free ↦
          let rest =
            rebuild-Rebuilt m available index keyed.1 v
              (λ k h. ground (arith, fresh k, lookup_cons k id state m, string_key.beq_iff id k)) in
          rw none_free (record {
            agrees = rest.agrees;
            members = λ k.
                rest.members k
                ∙ ground (arith, lookup_cons k id state m, keyed.0, string_key.beq_iff id k);
          })
    ]

rebuild_available_cache-IsValid :
    (pm : ProxyMap) → Keyed pm.proxies → IsValid (rebuild_available_cache pm)
unfolding rebuild_available_cache
rebuild_available_cache-IsValid pm keyed =
    let r =
      rebuild-Rebuilt pm.proxies [] [] keyed
        (record {
          to_slot = λ id i e. ground (arith, lookup-nil {V = ℕ} id);
          to_index = λ id i e. absurd (ground arith);
        })
        (λ k h. lookup-nil k) in
    record {
      agrees = r.agrees;
      listed = λ k. r.members k ∙ ground (arith, lookup-nil {V = ℕ} k);
      keyed = keyed;
    }

-- Whether the loop, over the entries `m`, drops the proxy.
abbrev pub stale_in : ℤ → ℤ → String → Dict String ProxyState → Bool
stale_in now timeout k m = elim (lookup k m) [
  | none ↦ false
  | some state ↦ is_stale now timeout state
]

record Dropped (now timeout : ℤ) (m : Dict String ProxyState) (pm pm' : ProxyMap)
    (before after : Bool) : Type 0 where
  keyed : Keyed pm'.proxies
  untouched : after ≡ false → (pm' ≡ pm) × (before ≡ false)
  map_after :
      (k : String)
      → lookup k pm'.proxies ≡ (if stale_in now timeout k m then none else lookup k pm.proxies)

drop_stale-Dropped :
    (now timeout : ℤ) (m : Dict String ProxyState) (pm : ProxyMap) (before : Bool)
    → Keyed m
    → Agrees pm.available pm.available_index
    → Keyed pm.proxies
    → (pm' : ProxyMap) × (after : Bool) × (drop_stale now timeout m pm before ≡ done (pm', after))
      × Dropped now timeout m pm pm' before after
unfolding drop_stale
drop_stale-Dropped now timeout [] pm before keyed v all = (
  pm,
  before,
  refl,
  record {
    keyed = all;
    untouched = λ h. (refl, h);
    map_after = λ k. ground (arith, lookup-nil {V = ProxyState} k);
  },
)
drop_stale-Dropped now timeout ((id, state) ∷ m) pm before keyed v all =
    elim (Bool-cases (is_stale now timeout state)) [
      | inl old ↦
          let pm1 = record pm { proxies = erase id pm.proxies } in
          let (pm2, e, r) = remove_from_available-Removed pm1 id v in
          let all2 : Keyed pm2.proxies = rw r.kept (Keyed-erase id pm.proxies all) in
          let (pm3, after, e', d) =
            drop_stale-Dropped now timeout m pm2 true keyed.1 r.agrees all2 in
          (
            pm3,
            after,
            rw (old, drop_stale) (rw (e) e'),
            record {
              keyed = d.keyed;
              untouched = λ h. absurd (ground (arith, (d.untouched h).1));
              map_after = λ k.
                  d.map_after k
                  ∙ rw r.kept (
                      ground (
                        arith,
                        lookup_cons k id state m,
                        lookup-erase id k pm.proxies,
                        keyed.0,
                        string_key.beq_iff id k,
                      ));
            },
          )
      | inr fresh ↦
          let (pm3, after, e', d) = drop_stale-Dropped now timeout m pm before keyed.1 v all in
          (
            pm3,
            after,
            rw (fresh, drop_stale) e',
            record {
              keyed = d.keyed;
              untouched = d.untouched;
              map_after = λ k.
                  d.map_after k
                  ∙ ground (arith, lookup_cons k id state m, keyed.0, string_key.beq_iff id k);
            },
          )
    ]

-- On a well-formed map `CleanupStale` does not panic, keeps the invariant, and forgets exactly the
-- proxies whose last heartbeat is further back than the timeout.
pub cleanup_stale-IsValid :
    (pm : ProxyMap) (now timeout_seconds : ℤ)
    → IsValid pm
    → (pm' : ProxyMap) × (cleanup_stale pm now timeout_seconds ≡ done pm')
      × IsValid pm'
      × ((k : String)
          → lookup k pm'.proxies ≡ (
              if stale_in now (timeout_seconds *ℤ pos 1000) k pm.proxies
              then none
              else lookup k pm.proxies))
unfolding cleanup_stale
cleanup_stale-IsValid pm now timeout_seconds v =
    let timeout = timeout_seconds *ℤ pos 1000 in
    let (pm', cleaned, e, d) =
      drop_stale-Dropped now timeout pm.proxies pm false v.keyed v.agrees v.keyed in
    elim (Bool-cases cleaned) [
      | inl yes_cleaned ↦ (
        rebuild_available_cache pm',
        rw (e, yes_cleaned) refl,
        rebuild_available_cache-IsValid pm' d.keyed,
        d.map_after,
      )
      | inr not_cleaned ↦
          let (same, _) = d.untouched not_cleaned in
          (pm', rw (e, not_cleaned) refl, subst IsValid (sym same) v, d.map_after)
    ]
