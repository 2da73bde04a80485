-- ===== src/Config/Bounds.antt =====
-- internal/config.go: what a configuration is that passes the checks.
use cue.Base.{
  ℕ, ◌≡◌, ◌≤◌, refl, Bool, true, false, ◌||◌, List, [], Option, none, some, String, if◌then◌else◌,
  ◌==◌, arith,
}
use cue.Base.Int.{ℤ, pos, ltb_ℤ, leb_ℤ, ◌≤ℤ◌, ◌<ℤ◌}
use cue.Base.Key.{string_key, ◌=?◌}
use cue.Config.{
  Config, ClusterConfig, ConfigError, flag, with_discovery, validate_discovery_config, outside,
  raft_errors, config_errors, validate, clamped, any_empty, data_dir_empty, quic_port_zero,
  proxy_port_range, cluster_tls_empty, proxy_tls_empty, partition_tick_unset, proxy_cleanup_unset,
  heartbeat_unset,
}

flag_none {ℓ} :
    {A : Type ℓ} (b : Bool) (x : A) (later : List A)
    → flag b x later ≡ []
    → (b ≡ false) × (later ≡ [])
flag_none true x later h = absurd cc
flag_none false x later h = (refl, h)

with_discovery_none :
    (o : Option ConfigError) (later : List ConfigError) → with_discovery o later ≡ [] → later ≡ []
with_discovery_none none later h = h
with_discovery_none (some e) later h = absurd cc

-- The numbers that Raft needs.
abbrev pub RaftSound : ClusterConfig → Type 0
RaftSound cfg =
    ((pos 10 ≤ℤ cfg.raft_tick_ms) × (cfg.raft_tick_ms ≤ℤ pos 1000))
    × (((pos 1 ≤ℤ cfg.raft_heartbeat_tick) × (cfg.raft_heartbeat_tick ≤ℤ pos 100))
        × (cfg.raft_heartbeat_tick <ℤ cfg.raft_election_tick))

inside : (n : ℤ) (low high : ℕ) → outside n low high ≡ false → (pos low ≤ℤ n) × (n ≤ℤ pos high)
inside n low high h = (ground (arith, h), ground (arith, h))

greater :
    (beat election : ℤ)
    → outside beat 1 100 ≡ false
    → (if ltb_ℤ (pos 0) beat then leb_ℤ election beat else false) ≡ false
    → beat <ℤ election
greater beat election h k = ground (arith, h, k)

raft_errors_none :
    (cfg : ClusterConfig) (later : List ConfigError)
    → raft_errors cfg later ≡ []
    → RaftSound cfg × (later ≡ [])
unfolding raft_errors
raft_errors_none cfg later h =
    let (_, h1) = flag_none _ _ _ h in
    let (tick, h2) = flag_none _ _ _ h1 in
    let (beat, h3) = flag_none _ _ _ h2 in
    let (election, h4) = flag_none _ _ _ h3 in
    (
      (
        inside cfg.raft_tick_ms 10 1000 tick,
        (
          inside cfg.raft_heartbeat_tick 1 100 beat,
          greater cfg.raft_heartbeat_tick cfg.raft_election_tick beat election,
        ),
      ),
      h4,
    )

nonzero : (n : ℕ) → (n == 0) ≡ false → 1 ≤ n
nonzero n h = ground (arith, h)

positive : (n : ℤ) → leb_ℤ n (pos 0) ≡ false → pos 0 <ℤ n
positive n h = ground (arith, h)

port_range :
    (n : ℤ) → (leb_ℤ n (pos 0) || ltb_ℤ (pos 65535) n) ≡ false → (pos 1 ≤ℤ n) × (n ≤ℤ pos 65535)
port_range n h = (ground (arith, h), ground (arith, h))

clamped_range : (n : ℤ) → (pos 1 ≤ℤ clamped n) × (clamped n ≤ℤ pos 10)
clamped_range n = (ground arith, ground arith)

-- The numbers of a configuration that a node needs: its ports, its ticks, and a positive number of tries.
abbrev pub Sound : Config → Type 0
Sound c =
    (1 ≤ c.cluster.quic_port)
    × (((pos 1 ≤ℤ c.proxy.port) × (c.proxy.port ≤ℤ pos 65535))
        × (RaftSound c.cluster
            × ((pos 0 <ℤ c.partition.partition_tick_ms)
                × ((pos 0 <ℤ c.partition.proxy_cleanup_tick_sec)
                    × ((pos 0 <ℤ c.partition.heartbeat_tick_ms)
                        × ((pos 1 ≤ℤ c.partition.max_retries)
                            × (c.partition.max_retries ≤ℤ pos 10)))))))

-- Let Validate find no error. The configuration that it leaves has ports in range, ticks of the
-- partition above zero, between one and ten tries, a Raft tick between 10 and 1000 milliseconds, a Raft
-- heartbeat between 1 and 100 ticks, and an election timeout longer than the heartbeat.
pub validate-Sound :
    (lower : String → String) (blank : String → Bool) (c : Config)
    → (validate lower blank c).1.1 ≡ []
    → Sound (validate lower blank c).0
unfolding validate config_errors
validate-Sound lower blank c h =
    let (_, h1) = flag_none (c.data_dir =? "") data_dir_empty _ h in
    let (quic, h2) = flag_none (c.cluster.quic_port == 0) quic_port_zero _ h1 in
    let (port, h3) =
      flag_none (leb_ℤ c.proxy.port (pos 0) || ltb_ℤ (pos 65535) c.proxy.port) proxy_port_range _
        h2 in
    let (_, h4) =
      flag_none (any_empty c.cluster.cert_path c.cluster.key_path c.cluster.ca_cert_path)
        cluster_tls_empty _ h3 in
    let (_, h5) =
      flag_none (any_empty c.proxy.cert_path c.proxy.key_path c.proxy.ca_path) proxy_tls_empty _
        h4 in
    let h6 = with_discovery_none (validate_discovery_config lower blank c.cluster) _ h5 in
    let (raft, h7) = raft_errors_none c.cluster _ h6 in
    let (tick, h8) =
      flag_none (leb_ℤ c.partition.partition_tick_ms (pos 0)) partition_tick_unset _ h7 in
    let (cleanup, h9) =
      flag_none (leb_ℤ c.partition.proxy_cleanup_tick_sec (pos 0)) proxy_cleanup_unset _ h8 in
    let (beat, _) = flag_none (leb_ℤ c.partition.heartbeat_tick_ms (pos 0)) heartbeat_unset [] h9 in
    (
      nonzero c.cluster.quic_port quic,
      (
        port_range c.proxy.port port,
        (
          raft,
          (
            positive c.partition.partition_tick_ms tick,
            (
              positive c.partition.proxy_cleanup_tick_sec cleanup,
              (positive c.partition.heartbeat_tick_ms beat, clamped_range c.partition.max_retries),
            ),
          ),
        ),
      ),
    )
