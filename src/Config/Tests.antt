-- ===== src/Config/Tests.antt =====
-- internal/config.go: the theorem, applied to a configuration.
use cue.Base.{refl, false}
use cue.Base.Int.{pos}
use cue.Config.{Config, validate}
use cue.Config.Bounds.{Sound, validate-Sound}

abbrev config : Config
config = record {
  data_dir = "/data";
  cluster = record {
    quic_port = 7000;
    cert_path = "c";
    key_path = "k";
    ca_cert_path = "a";
    raft_tick_ms = pos 100;
    raft_heartbeat_tick = pos 3;
    raft_election_tick = pos 20;
    discovery_kind = "static";
    discovery_yml_path = "d";
    discovery_http_host = "";
  };
  proxy = record { port = pos 8000; cert_path = "c"; key_path = "k"; ca_path = "a" };
  partition = record {
    max_retries = pos 50;
    partition_tick_ms = pos 100;
    proxy_cleanup_tick_sec = pos 30;
    heartbeat_tick_ms = pos 1000;
  };
}

validate-Sound_example : Sound (validate (λ s. s) (λ s. false) config).0
unfolding validate
validate-Sound_example = validate-Sound (λ s. s) (λ s. false) config refl
