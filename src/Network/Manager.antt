-- ===== src/Network/Manager.antt =====
-- `NetworkManager` (src/network.rs). Its codec has no state.
use mini_raft.Protocol.{NodeId}
use mini_raft.Network.Registry
use mini_raft.Network.Registry.{ConnectionRegistry}
use mini_raft.Network.Tasks.{ToServer}

pub record NetworkManager : Type 0 where
  pub connections_map : ConnectionRegistry
  pub to_server : ToServer
  pub id : NodeId

unfoldable pub new : ToServer → NodeId → NetworkManager
unfolding Registry.new
new to_server id = record { connections_map = Registry.new; to_server = to_server; id = id }
