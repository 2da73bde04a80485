-- ===== src/Config.antt =====
-- internal/config.go: the checks of the configuration. `lower` stands for `strings.ToLower` and `blank`
-- for a text of which `strings.TrimSpace` leaves nothing. An error or a warning is a constructor in
-- place of its text, without the numbers in it.
pub mod Bounds
mod Tests
use cue.Base.{
  ℕ, ◌+◌, ◌-◌, ◌*◌, ◌/◌, Bool, true, false, not, ◌||◌, List, [], ◌∷◌, ◌++◌, Option, none, some,
  String, if◌then◌else◌, ◌==◌,
}
use cue.Base.Int.{ℤ, pos, negsuc, ltb_ℤ, leb_ℤ, eq_ℤ, ◌*ℤ◌}
use cue.Base.Key.{string_key, ◌=?◌}

-- The fields that the checks read.
pub record ClusterConfig : Type 0 where
  pub quic_port : ℕ
  pub cert_path : String
  pub key_path : String
  pub ca_cert_path : String
  pub raft_tick_ms : ℤ
  pub raft_heartbeat_tick : ℤ
  pub raft_election_tick : ℤ
  pub discovery_kind : String
  pub discovery_yml_path : String
  pub discovery_http_host : String

pub record ProxyConfig : Type 0 where
  pub port : ℤ
  pub cert_path : String
  pub key_path : String
  pub ca_path : String

pub record PartitionTicks : Type 0 where
  pub max_retries : ℤ
  pub partition_tick_ms : ℤ
  pub proxy_cleanup_tick_sec : ℤ
  pub heartbeat_tick_ms : ℤ

pub record Config : Type 0 where
  pub data_dir : String
  pub cluster : ClusterConfig
  pub proxy : ProxyConfig
  pub partition : PartitionTicks

pub data DiscoveryKind : Type 0 where
  discovery_static discovery_http : DiscoveryKind

-- `ParseDiscoveryKind`
unfoldable pub parse_discovery_kind : (lower : String → String) → String → Option DiscoveryKind
parse_discovery_kind lower s =
    if lower s =? "static"
    then some discovery_static
    else if lower s =? "http"
    then some discovery_http
    else none

pub data ConfigError : Type 0 where
  data_dir_empty quic_port_zero proxy_port_range cluster_tls_empty proxy_tls_empty : ConfigError
  unknown_discovery yml_path_missing http_host_missing : ConfigError
  raft_not_set raft_tick_range raft_heartbeat_range election_not_greater : ConfigError
  partition_tick_unset proxy_cleanup_unset heartbeat_unset : ConfigError

pub data ConfigWarning : Type 0 where
  tick_unusual heartbeat_unusual ratio_unusual interval_unusual timeout_unusual : ConfigWarning
  heartbeat_zero : ConfigWarning

-- `if cond { xs = append(xs, x) }`, in front of what is appended later
abbrev pub flag {ℓ} : {A : Type ℓ} → Bool → A → List A → List A
flag cond x later = if cond then x ∷ later else later

-- `validateDiscoveryConfig`
unfoldable pub validate_discovery_config :
    (lower : String → String) (blank : String → Bool) → ClusterConfig → Option ConfigError
unfolding parse_discovery_kind
validate_discovery_config lower blank cfg = elim (parse_discovery_kind lower cfg.discovery_kind) [
  | none ↦ some unknown_discovery
  | some discovery_static ↦ if blank cfg.discovery_yml_path then some yml_path_missing else none
  | some discovery_http ↦ if blank cfg.discovery_http_host then some http_host_missing else none
]

-- Outside a range.
abbrev pub outside : ℤ → ℕ → ℕ → Bool
outside n low high = ltb_ℤ n (pos low) || ltb_ℤ (pos high) n

-- Go's division of an `int` by a positive one
abbrev pub quotient : ℤ → ℕ → ℤ
quotient (pos n) d = pos (n / d)
quotient (negsuc n) d = if (n + 1) / d == 0 then pos 0 else negsuc ((n + 1) / d - 1)

abbrev pub at_least_one : ℤ → ℕ
at_least_one (pos n) = if n == 0 then 1 else n
at_least_one (negsuc n) = 1

-- `validateRaftConfig`: its errors, before later ones
unfoldable pub raft_errors : ClusterConfig → List ConfigError → List ConfigError
raft_errors cfg later =
    flag
      (eq_ℤ cfg.raft_tick_ms (pos 0)
        || (eq_ℤ cfg.raft_heartbeat_tick (pos 0) || eq_ℤ cfg.raft_election_tick (pos 0)))
      raft_not_set
      (flag (outside cfg.raft_tick_ms 10 1000) raft_tick_range (
        flag (outside cfg.raft_heartbeat_tick 1 100) raft_heartbeat_range (
          flag
            (if ltb_ℤ (pos 0) cfg.raft_heartbeat_tick
              then leb_ℤ cfg.raft_election_tick cfg.raft_heartbeat_tick
              else false)
            election_not_greater later)))

-- `validateRaftConfig`: its warnings
unfoldable pub raft_warnings : ClusterConfig → List ConfigWarning
raft_warnings cfg =
    if ltb_ℤ (pos 0) cfg.raft_heartbeat_tick
    then flag (outside cfg.raft_tick_ms 50 200) tick_unusual (
        flag (outside cfg.raft_heartbeat_tick 3 10) heartbeat_unusual (
          flag
            (outside (quotient cfg.raft_election_tick (at_least_one cfg.raft_heartbeat_tick)) 4 20)
            ratio_unusual
            (flag (outside (cfg.raft_tick_ms *ℤ cfg.raft_heartbeat_tick) 200 2000) interval_unusual
              (flag (outside (cfg.raft_tick_ms *ℤ cfg.raft_election_tick) 1000 30000)
                timeout_unusual []))))
    else heartbeat_zero ∷ []

-- `min(max(c.Partition.MaxRetries, 1), 10)`
abbrev pub clamped : ℤ → ℤ
clamped n =
    let low = if ltb_ℤ n (pos 1) then pos 1 else n in if ltb_ℤ (pos 10) low then pos 10 else low

abbrev pub any_empty : String → String → String → Bool
any_empty a b c = (a =? "") || ((b =? "") || (c =? ""))

abbrev pub with_discovery : Option ConfigError → List ConfigError → List ConfigError
with_discovery none later = later
with_discovery (some e) later = e ∷ later

-- `Validate`: the errors, in order
unfoldable pub config_errors :
    (lower : String → String) (blank : String → Bool) → Config → List ConfigError
unfolding raft_errors validate_discovery_config
config_errors lower blank c = flag (c.data_dir =? "") data_dir_empty (
    flag (c.cluster.quic_port == 0) quic_port_zero (
      flag (leb_ℤ c.proxy.port (pos 0) || ltb_ℤ (pos 65535) c.proxy.port) proxy_port_range (
        flag (any_empty c.cluster.cert_path c.cluster.key_path c.cluster.ca_cert_path)
          cluster_tls_empty
          (flag (any_empty c.proxy.cert_path c.proxy.key_path c.proxy.ca_path) proxy_tls_empty (
            with_discovery (validate_discovery_config lower blank c.cluster) (
              raft_errors c.cluster (
                flag (leb_ℤ c.partition.partition_tick_ms (pos 0)) partition_tick_unset (
                  flag (leb_ℤ c.partition.proxy_cleanup_tick_sec (pos 0)) proxy_cleanup_unset
                    (flag (leb_ℤ c.partition.heartbeat_tick_ms (pos 0)) heartbeat_unset [])))))))))

-- `Validate`: the configuration with the clamped retries, the warnings and the errors
unfoldable pub validate :
    (lower : String → String) (blank : String → Bool)
    → Config
    → Config × (List ConfigWarning × List ConfigError)
unfolding config_errors raft_warnings
validate lower blank c = (
  record c { partition = record c.partition { max_retries = clamped c.partition.max_retries } },
  (raft_warnings c.cluster, config_errors lower blank c),
)
