-- ===== src/Topics/Learning.antt =====
-- internal/state/topic_manager.go: a partition that is spawned late knows the proxies that it would
-- know had it been there for every update.
use cue.Base.{
  ◌≡◌, refl, sym, ap, ◌∙◌, inl, inr, List, [], ◌∷◌, Option, none, some, String, arith, Bool-cases,
}
use cue.Base.Key.{string_key, ◌=?◌}
use cue.Base.Dict.{
  Dict, lookup, insert, erase, lookup-insert, lookup-erase, lookup_cons, lookup-nil,
}
use cue.Model.{Channel}
use cue.Partition.State.{
  PartitionConfig, Partition, Env, new_partition, TopologyUpdate, adds, removes,
  handle_topology_update,
}
use cue.Topics.{TopicManager, TopicCommand, handle_spawn, learn, teach}

-- The channel that an entry of the topology stands for.
abbrev pub channel_of : Option TopologyUpdate → Option Channel
channel_of none = none
channel_of (some (adds id ch)) = ch
channel_of (some (removes id)) = none

-- An addition carries the channel of its proxy, as the gateway sends it.
abbrev pub HasChannel : TopologyUpdate → Type 0
HasChannel (adds id none) = ⊥
HasChannel (adds id (some ch)) = Unit
HasChannel (removes id) = Unit

-- A topology has each proxy once, under its ID, with its channel.
abbrev pub IsTopology : Dict String TopologyUpdate → Type 0
IsTopology [] = Unit
IsTopology ((id, adds proxy_id none) ∷ m) = ⊥
IsTopology ((id, adds proxy_id (some ch)) ∷ m) =
    (proxy_id ≡ id) × (lookup id m ≡ none) × IsTopology m
IsTopology ((id, removes proxy_id) ∷ m) = ⊥

-- The partition has the channels of the topology.
abbrev pub Knows : Partition → Dict String TopologyUpdate → Type 0
Knows p m = (id : String) → lookup id p.proxy_push_chs ≡ channel_of (lookup id m)

-- An update keeps what a partition knows in step with what the manager knows.
pub handle_topology_update-Knows :
    (p : Partition) (m : Dict String TopologyUpdate) (update : TopologyUpdate)
    → HasChannel update
    → Knows p m
    → Knows (handle_topology_update p update) (learn m update)
unfolding handle_topology_update learn
handle_topology_update-Knows p m (adds proxy_id none) h k id = absurd h
handle_topology_update-Knows p m (adds proxy_id (some ch)) h k id = ground (
  arith,
  k id,
  lookup-insert proxy_id id ch p.proxy_push_chs,
  lookup-insert proxy_id id (adds proxy_id (some ch)) m,
)
handle_topology_update-Knows p m (removes proxy_id) h k id =
    ground (arith, k id, lookup-erase proxy_id id p.proxy_push_chs, lookup-erase proxy_id id m)

-- What a partition knows after it was taught.
pub teach-Knows :
    (p : Partition) (m : Dict String TopologyUpdate) (id : String)
    → IsTopology m
    → lookup id (teach p m).proxy_push_chs ≡ elim (lookup id m) as (λ _. Option Channel) [
      | none ↦ lookup id p.proxy_push_chs
      | some update ↦ channel_of (some update)
    ]
unfolding teach handle_topology_update
teach-Knows p [] id t = rw (lookup-nil {V = TopologyUpdate} id) refl
teach-Knows p ((j, adds proxy_id none) ∷ m) id t = absurd t
teach-Knows p ((j, adds proxy_id (some ch)) ∷ m) id (e, fresh, t) =
    teach-Knows (handle_topology_update p (adds proxy_id (some ch))) m id t
    ∙ ground (
      arith,
      e,
      fresh,
      lookup_cons id j (adds proxy_id (some ch)) m,
      lookup-insert proxy_id id ch p.proxy_push_chs,
      string_key.beq_iff j id,
    )
teach-Knows p ((j, removes proxy_id) ∷ m) id t = absurd t

IsTopology-insert :
    (m : Dict String TopologyUpdate) (id : String) (ch : Channel)
    → IsTopology m
    → IsTopology (insert id (adds id (some ch)) m)
unfolding insert lookup
IsTopology-insert [] id ch t = (refl, refl, tt)
IsTopology-insert ((j, adds proxy_id none) ∷ m) id ch t = absurd t
IsTopology-insert ((j, adds proxy_id (some c)) ∷ m) id ch (e, fresh, t) =
    elim (Bool-cases (j =? id)) [
      | inl here ↦ rw here (refl, rw (← (string_key.beq_iff j id).0 here) fresh, t)
      | inr there ↦ rw there (
        e,
        lookup-insert id j (adds id (some ch)) m
            ∙ ground (arith, there, fresh, string_key.beq_iff j id, string_key.beq_iff id j),
        IsTopology-insert m id ch t,
      )
    ]
IsTopology-insert ((j, removes proxy_id) ∷ m) id ch t = absurd t

IsTopology-erase :
    (m : Dict String TopologyUpdate) (id : String) → IsTopology m → IsTopology (erase id m)
unfolding erase lookup
IsTopology-erase [] id t = tt
IsTopology-erase ((j, adds proxy_id none) ∷ m) id t = absurd t
IsTopology-erase ((j, adds proxy_id (some c)) ∷ m) id (e, fresh, t) = elim (Bool-cases (j =? id)) [
  | inl here ↦ rw here (IsTopology-erase m id t)
  | inr there ↦ rw there (e, lookup-erase id j m ∙ ground (arith, fresh), IsTopology-erase m id t)
]
IsTopology-erase ((j, removes proxy_id) ∷ m) id t = absurd t

pub learn-IsTopology :
    (m : Dict String TopologyUpdate) (update : TopologyUpdate)
    → HasChannel update
    → IsTopology m
    → IsTopology (learn m update)
unfolding learn
learn-IsTopology m (adds id none) h t = absurd h
learn-IsTopology m (adds id (some ch)) h t = IsTopology-insert m id ch t
learn-IsTopology m (removes id) h t = IsTopology-erase m id t

teach-Knows_all :
    (p : Partition) (m : Dict String TopologyUpdate)
    → p.proxy_push_chs ≡ []
    → IsTopology m
    → Knows (teach p m) m
teach-Knows_all p m e t id =
    let nothing : lookup id p.proxy_push_chs ≡ none = ap (lookup id) e ∙ lookup-nil id in
    teach-Knows p m id t ∙ split (lookup id m) nothing
  where
    split :
        (o : Option TopologyUpdate)
        → lookup id p.proxy_push_chs ≡ none
        → (elim o as (λ _. Option Channel) [
          | none ↦ lookup id p.proxy_push_chs
          | some update ↦ channel_of (some update)
        ])
          ≡ channel_of o
    split none nothing = nothing
    split (some update) nothing = refl

-- Many updates in turn, at the manager and at a partition.
abbrev pub learn_all : Dict String TopologyUpdate → List TopologyUpdate → Dict String TopologyUpdate
learn_all m [] = m
learn_all m (update ∷ updates) = learn_all (learn m update) updates

abbrev pub hear_all : Partition → List TopologyUpdate → Partition
hear_all p [] = p
hear_all p (update ∷ updates) = hear_all (handle_topology_update p update) updates

abbrev pub AllHaveChannels : List TopologyUpdate → Type 0
AllHaveChannels [] = Unit
AllHaveChannels (update ∷ updates) = HasChannel update × AllHaveChannels updates

learn_all-IsTopology :
    (m : Dict String TopologyUpdate) (updates : List TopologyUpdate)
    → AllHaveChannels updates
    → IsTopology m
    → IsTopology (learn_all m updates)
learn_all-IsTopology m [] h t = t
learn_all-IsTopology m (update ∷ updates) (h, hs) t =
    learn_all-IsTopology (learn m update) updates hs (learn-IsTopology m update h t)

hear_all-Knows :
    (p : Partition) (m : Dict String TopologyUpdate) (updates : List TopologyUpdate)
    → AllHaveChannels updates
    → Knows p m
    → Knows (hear_all p updates) (learn_all m updates)
hear_all-Knows p m [] h k = k
hear_all-Knows p m (update ∷ updates) (h, hs) k =
    hear_all-Knows (handle_topology_update p update) (learn m update) updates hs
      (handle_topology_update-Knows p m update h k)

new_partition-no_proxies :
    (topic : String) (config : PartitionConfig) (env : Env)
    → (new_partition topic config env.now_milli).proxy_push_chs ≡ []
unfolding new_partition
new_partition-no_proxies topic config env = refl

-- The partition that a spawn of a missing topic starts, after any updates of the topology that the
-- manager learned, each addition with a channel, has for every proxy the channel that a partition of
-- the same topic has which heard these updates itself.
pub handle_spawn-catches_up :
    (env : Env) (tm : TopicManager) (cmd : TopicCommand) (updates : List TopologyUpdate)
    → lookup cmd.topic tm.stop_chs ≡ none
    → AllHaveChannels updates
    → tm.current_topology ≡ learn_all [] updates
    → (p : Partition) × ((handle_spawn env tm cmd).1.started ≡ some p)
      × ((id : String)
          → lookup id p.proxy_push_chs
            ≡ lookup id
                (hear_all (new_partition cmd.topic tm.config env.now_milli) updates).proxy_push_chs)
unfolding handle_spawn
handle_spawn-catches_up env tm cmd updates missing hs learned =
    let start = new_partition cmd.topic tm.config env.now_milli in
    (teach start tm.current_topology, rw (missing, handle_spawn) refl, λ id. same id)
  where
    same :
        (id : String)
        → lookup id
            (teach
              (new_partition cmd.topic tm.config env.now_milli)
              tm.current_topology).proxy_push_chs
          ≡ lookup id
              (hear_all (new_partition cmd.topic tm.config env.now_milli) updates).proxy_push_chs
    same id =
        let start = new_partition cmd.topic tm.config env.now_milli in
        let fresh = new_partition-no_proxies cmd.topic tm.config env in
        let heard =
          hear_all-Knows start [] updates hs
            (λ i. ap (lookup i) fresh ∙ lookup-nil i ∙ sym (ap channel_of (lookup-nil i))) in
        let taught =
          teach-Knows_all start tm.current_topology fresh
            (rw learned (learn_all-IsTopology [] updates hs tt)) in
        taught id ∙ ap (λ m. channel_of (lookup id m)) learned ∙ sym (heard id)
