-- ===== src/Config.antt =====
-- src/config.rs: the settings of a node.
use utx0_node.Base.{ℕ, Bool, true, Text, lit, ◌++◌, List, []}
use utx0_node.Peer.{Peer}

abbrev pub default_max_outbound : ℕ
default_max_outbound = 4

abbrev pub default_service_loop_delay : ℕ
default_service_loop_delay = 20

pub record Config : Type 0 where
  pub port : ℕ
  pub user_agent : Text
  pub peers_file : Text
  pub max_outbound_connection : ℕ
  pub service_loop_delay : ℕ
  pub banned_hosts : List Peer
  pub public_node : Bool
  pub my_host : Text

unfoldable pub new : ℕ → Text → Text → Config
new port user_agent peers_file = record {
  port = port;
  user_agent = user_agent;
  peers_file = peers_file;
  max_outbound_connection = default_max_outbound;
  service_loop_delay = default_service_loop_delay;
  banned_hosts = [];
  public_node = true;
  my_host = lit "0.0.0.0";
}

unfoldable pub new_test : ℕ → Text → Text → Config
new_test port user_agent peers_file = record {
  port = port;
  user_agent = user_agent;
  peers_file = peers_file;
  max_outbound_connection = 4;
  service_loop_delay = 1;
  banned_hosts = [];
  public_node = true;
  my_host = lit "0.0.0.0";
}

unfoldable pub default : Config
unfolding new
default = new 18018 (lit "utx0-v0.1") (lit "peers.csv")

-- `ConfigError`, which nothing gives yet.
pub data ConfigError : Type 0 where
  io bad_peer : Text → ConfigError

unfoldable pub to_string : ConfigError → Text
to_string (io e) = lit "I/O error reading config file: " ++ e
to_string (bad_peer s) = lit "Bad peer entry: " ++ s
