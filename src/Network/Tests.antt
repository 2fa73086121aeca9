-- ===== src/Network/Tests.antt =====
-- The theorems on src/network.rs at a registry with two peers and a client, and at three peers to dial.
use mathlib.Core.Option
use mini_raft.Prelude.{
  zero, suc, subst, String, Option, none, ℕ, ◌≡◌, ◌≢◌, refl, true, some, List, [], ◌∷◌, arith,
}
use mini_raft.Protocol.{NodeId, peer, Message, hello_type, to_client, to_node, broadcast, Outgoing}
use mini_raft.Network.Registry.{ConnectionRegistry, new}
use mini_raft.Network.Registry.Sends.{push_all}
use mini_raft.Network.Dispatch.{dispatch_server_msg}
use mini_raft.Network.Dispatch.Delivery.{channel_of, dispatch_server_msg-addressed}
use mini_raft.Network.Connect.{NextFrame, received, Conn, handle_conn, dial_peers}
use mini_raft.Network.Connect.Registered.{Says, fresh, handle_conn_registers}
use mini_raft.Network.Connect.Retry.{IsFirst}
use mini_raft.Network.Connect.Dialled.{LeadsTo, channel_after, dial_peers-reaches}

abbrev hello : ℕ → Message
hello n = hello_type (record { id = n })

abbrev three_connected : ConnectionRegistry
three_connected = record {
  peer_registry = (3, fresh 1) ∷ (2, fresh 32) ∷ [];
  client_registry = (7, fresh 32) ∷ [];
}

abbrev posted : List Outgoing
posted =
    record { dest = broadcast; msg = hello 1 }
    ∷ record { dest = to_node 3; msg = hello 2 }
    ∷ record { dest = to_client 7; msg = hello 3 }
    ∷ []

dispatch_server_msg-addressed_example :
    channel_of (peer 3) (dispatch_server_msg posted three_connected)
    ≡ Option.map (push_all (hello 1 ∷ hello 2 ∷ [])) (some (fresh 1))
dispatch_server_msg-addressed_example =
    dispatch_server_msg-addressed posted (peer 3) three_connected
      ((λ e. absurd (omega arith), tt), (tt, tt))

abbrev greeted : Conn
greeted = record { greets = true; reply = received (hello 3); room = 32 }

handle_conn_registers_example :
    (channel_of (peer 3) (handle_conn greeted three_connected) ≡ some (fresh 32))
    × (peer 2 ≢ peer 3
        → channel_of (peer 2) (handle_conn greeted three_connected)
          ≡ channel_of (peer 2) three_connected)
handle_conn_registers_example =
    handle_conn_registers greeted (peer 3) (peer 2) three_connected refl refl

-- Whatever is dialled answers from the second attempt on, as the peer that it is.
abbrev late : ℕ → ℕ → Option Conn
late p zero = none
late p (suc zero) = none
late p (suc (suc k)) = some (record { greets = true; reply = received (hello p); room = 32 })

late-LeadsTo : LeadsTo late
late-LeadsTo p zero conn e = cc e
late-LeadsTo p (suc zero) conn e = cc e
late-LeadsTo p (suc (suc k)) conn e =
    (cc e, subst (λ (reply : NextFrame). Says reply (peer p)) {x = received (hello p)} (cc e) refl)

abbrev three_peers : List (NodeId × String)
three_peers = (3, "c") ∷ (1, "a") ∷ (2, "b") ∷ []

-- Node 2 dials node 3 only.
dialled_third : channel_of (peer 3) (dial_peers late three_peers 2 new) ≡ some (fresh 32)
unfolding dial_peers new
dialled_third = refl

not_dialled : channel_of (peer 1) (dial_peers late three_peers 2 new) ≡ none
unfolding dial_peers new
not_dialled = refl

dial_peers-reaches_example :
    (result : Option Conn) × IsFirst (late 3) 1 6 result
    × (channel_of (peer 3) (dial_peers late three_peers 2 new)
        ≡ channel_after true result (channel_of (peer 3) new))
dial_peers-reaches_example = dial_peers-reaches late late-LeadsTo 2 three_peers 3 new
