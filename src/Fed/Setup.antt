-- ===== src/Fed/Setup.antt =====
-- internal/config/config.go: FedConfig, from the configuration file to that of the federation.
use llama_chip.Base.{Option, [], map, none, some, trim_right}
use llama_chip.Config.{Config, Federation}
use llama_chip.Fed.Defs.{FedConfig}

abbrev pub no_federation : FedConfig
no_federation = record {
  node_name = [];
  advertise = [];
  token = [];
  peers = [];
  hub_url = [];
  poll_interval = 0;
  peer_tokens = [];
}

unfoldable pub fed_of : Option Federation → FedConfig
unfolding trim_right
fed_of none = no_federation
fed_of (some f) = record {
  node_name = f.node_name;
  advertise = f.advertise;
  token = f.token;
  peers = map (λ p. record { name = p.name; url = trim_right b'/' p.url }) f.peers;
  hub_url = trim_right b'/' f.hub_url;
  poll_interval = f.poll_interval_sec;
  peer_tokens = f.peer_tokens;
}

unfoldable pub fed_config : Config → FedConfig
unfolding fed_of
fed_config c = fed_of c.federation
