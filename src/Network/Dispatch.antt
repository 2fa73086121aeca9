-- ===== src/Network/Dispatch.antt =====
-- `dispatch_server_msg` (src/network.rs): where the messages of the server go.
pub mod Delivery
use mini_raft.Prelude.{List, [], ◌∷◌}
use mini_raft.Protocol.{
  NodeId, client, peer, Message, Destination, to_client, to_node, broadcast, Outgoing,
}
use mini_raft.Network.Registry.{ConnectionRegistry, send, get_all_peers}

-- A failed send is logged and no more.
unfoldable pub send_each : List NodeId → Message → ConnectionRegistry → ConnectionRegistry
unfolding send
send_each [] msg r = r
send_each (node_id ∷ nodes) msg r = send_each nodes msg (send (peer node_id) msg r).1

unfoldable pub dispatch : Destination → Message → ConnectionRegistry → ConnectionRegistry
unfolding send_each get_all_peers
dispatch (to_node node_id) msg r = (send (peer node_id) msg r).1
dispatch (to_client client_id) msg r = (send (client client_id) msg r).1
dispatch broadcast msg r = send_each (get_all_peers r) msg r

-- The messages of the server, until it closes its end.
unfoldable pub dispatch_server_msg : List Outgoing → ConnectionRegistry → ConnectionRegistry
unfolding dispatch
dispatch_server_msg [] r = r
dispatch_server_msg (o ∷ os) r = dispatch_server_msg os (dispatch o.dest o.msg r)
