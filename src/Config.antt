-- ===== src/Config.antt =====
-- The configuration of a node (src/config.rs). Load is about where it comes from.
pub mod Load
use mini_raft.Prelude.{ℕ, String, List, [], ◌∷◌}
use mini_raft.Protocol.{NodeId}

pub record ServerConfig : Type 0 where
  pub election_timeout : ℕ
  pub heartbeat_interval : ℕ
  pub address : String
  pub total_nodes : ℕ
  pub peer_addresses : List (ℕ × String)
  pub node_id : ℕ
  pub client_listener_address : String
  pub peer_listener_address : String

-- `peer_node_addresses`, in the order in which the map yields its entries.
unfoldable pub pair_addresses : List (ℕ × String) → List (NodeId × String)
pair_addresses [] = []
pair_addresses ((id, addr) ∷ rest) = (id, addr) ∷ pair_addresses rest

unfoldable pub peer_node_addresses : ServerConfig → List (NodeId × String)
unfolding pair_addresses
peer_node_addresses c = pair_addresses c.peer_addresses

-- `Duration::from_millis`, in milliseconds.
abbrev Duration : Type 0
Duration = ℕ

unfoldable election_timeout_duration : ServerConfig → Duration
election_timeout_duration c = c.election_timeout

unfoldable heartbeat_interval_duration : ServerConfig → Duration
heartbeat_interval_duration c = c.heartbeat_interval
