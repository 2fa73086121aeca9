-- ===== src/Network/Dispatch/Delivery.antt =====
-- What reaches each connection of the messages that the server sends (src/network.rs).
use mathlib.Core.Option
use mini_raft.Prelude.{
  ℕ, ◌==◌, ◌≡◌, refl, sym, ap, subst, ◌∙◌, Bool, true, false, Option, none, some, inl, inr,
  Option-cases, List, [], ◌∷◌, if◌then◌else◌, ℕ_discrete,
}
use mini_raft.Protocol.{
  NodeId, RemoteId, client, peer, Message, Destination, to_client, to_node, broadcast, Outgoing,
}
use mini_raft.Network.Registry.Sends.{
  Absent, IsDistinct, push, push_all, lookup_past, lookup-send_in, lookup-send_in_self,
  lookup-send_in_other, lookup-send_in-none, keys-send_in,
}
use mini_raft.Network.Registry.{
  HashMap, lookup, keys, Channel, ConnectionRegistry, send_in, send, get_all_peers,
}
use mini_raft.Network.Dispatch.{send_each, dispatch, dispatch_server_msg}

module _ (n : ℕ) (msg : Message) where
  -- What `send_each` does to the channels of peers.
  send_each-Absent :
      (nodes : List NodeId) (r : ConnectionRegistry)
      → Absent n nodes
      → lookup n (send_each nodes msg r).peer_registry ≡ lookup n r.peer_registry
  unfolding send_each send
  send_each-Absent [] r a = refl
  send_each-Absent (k ∷ nodes) r (ne, a) =
      send_each-Absent nodes (send (peer k) msg r).1 a
      ∙ lookup-send_in_other n k msg r.peer_registry (λ e. ne (sym e))

  -- A walk over distinct keys, those of the map m, changes the channel at n once if m has the key.
  send_each-once :
      (m : HashMap Channel) (r : ConnectionRegistry)
      → IsDistinct (keys m)
      → {tx : Channel} → lookup n m ≡ some tx
      → lookup n (send_each (keys m) msg r).peer_registry
        ≡ Option.map (push msg) (lookup n r.peer_registry)
  unfolding send_each send
  send_each-once [] r d e = cc e
  send_each-once ((k, v) ∷ m) r (a, d) e = elim (ℕ_discrete k n) [
    | yes same ↦
        send_each-Absent (keys m) (send (peer k) msg r).1 (subst (λ q. Absent q (keys m)) same a)
        ∙ subst
            (λ q.
              lookup n (send_in q msg r.peer_registry).1
              ≡ Option.map (push msg) (lookup n r.peer_registry))
            (sym same) (lookup-send_in_self n msg r.peer_registry)
    | no other ↦
        send_each-once m (send (peer k) msg r).1 d (sym (lookup_past n k v m other) ∙ e)
        ∙ ap (Option.map (push msg))
            (lookup-send_in_other n k msg r.peer_registry (λ q. other (sym q)))
  ]

  send_each-none :
      (nodes : List NodeId) (r : ConnectionRegistry)
      → lookup n r.peer_registry ≡ none
      → lookup n (send_each nodes msg r).peer_registry ≡ none
  unfolding send_each send
  send_each-none [] r e = e
  send_each-none (k ∷ nodes) r e =
      send_each-none nodes (send (peer k) msg r).1 (lookup-send_in-none n k msg r.peer_registry e)

send_each-clients :
    (nodes : List NodeId) (msg : Message) (r : ConnectionRegistry)
    → (send_each nodes msg r).client_registry ≡ r.client_registry
unfolding send_each send
send_each-clients [] msg r = refl
send_each-clients (k ∷ nodes) msg r = send_each-clients nodes msg (send (peer k) msg r).1

send_each-keys :
    (nodes : List NodeId) (msg : Message) (r : ConnectionRegistry)
    → keys (send_each nodes msg r).peer_registry ≡ keys r.peer_registry
unfolding send_each send
send_each-keys [] msg r = refl
send_each-keys (k ∷ nodes) msg r =
    send_each-keys nodes msg (send (peer k) msg r).1 ∙ keys-send_in k msg r.peer_registry

-- The channel to one at the other end.
abbrev pub channel_of : RemoteId → ConnectionRegistry → Option Channel
channel_of (client id) r = lookup id r.client_registry
channel_of (peer id) r = lookup id r.peer_registry

-- A message with this destination is for this one.
abbrev pub reaches : Destination → RemoteId → Bool
reaches (to_node k) (peer n) = k == n
reaches (to_client k) (client n) = k == n
reaches broadcast (peer n) = true
reaches _ _ = false

abbrev pub addressed : RemoteId → List Outgoing → List Message
addressed id [] = []
addressed id (o ∷ os) =
    let rest = addressed id os in if reaches o.dest id then o.msg ∷ rest else rest

pub dispatch-keys :
    (d : Destination) (msg : Message) (r : ConnectionRegistry)
    → keys (dispatch d msg r).peer_registry ≡ keys r.peer_registry
unfolding dispatch send
dispatch-keys (to_node k) msg r = keys-send_in k msg r.peer_registry
dispatch-keys (to_client k) msg r = refl
dispatch-keys broadcast msg r = send_each-keys (get_all_peers r) msg r

channel_of-broadcast :
    (n : NodeId) (msg : Message) (r : ConnectionRegistry)
    → IsDistinct (keys r.peer_registry)
    → lookup n (dispatch broadcast msg r).peer_registry
      ≡ Option.map (push msg) (lookup n r.peer_registry)
unfolding dispatch get_all_peers
channel_of-broadcast n msg r d = elim (Option-cases (lookup n r.peer_registry)) [
  | inl e ↦ send_each-none n msg (keys r.peer_registry) r e ∙ sym (ap (Option.map (push msg)) e)
  | inr (tx, e) ↦ send_each-once n msg r.peer_registry r d e
]

push_none : (c : Option Channel) → c ≡ Option.map (push_all []) c
push_none none = refl
push_none (some tx) = refl

push_one :
    (b : Bool) (msg : Message) (msgs : List Message) (c : Option Channel)
    → Option.map (push_all msgs) (if b then Option.map (push msg) c else c)
      ≡ Option.map (push_all (if b then msg ∷ msgs else msgs)) c
push_one true msg msgs none = refl
push_one true msg msgs (some tx) = refl
push_one false msg msgs c = refl

-- One message reaches whom it is for, once, and nobody else.
channel_of-dispatch :
    (id : RemoteId) (d : Destination) (msg : Message) (r : ConnectionRegistry)
    → IsDistinct (keys r.peer_registry)
    → channel_of id (dispatch d msg r)
      ≡ (if reaches d id then Option.map (push msg) (channel_of id r) else channel_of id r)
unfolding dispatch send
channel_of-dispatch (peer n) (to_node k) msg r dist = lookup-send_in n k msg r.peer_registry
channel_of-dispatch (client n) (to_client k) msg r dist = lookup-send_in n k msg r.client_registry
channel_of-dispatch (peer n) broadcast msg r dist = channel_of-broadcast n msg r dist
channel_of-dispatch (client n) broadcast msg r dist =
    ap (lookup n) (send_each-clients (get_all_peers r) msg r)
channel_of-dispatch (client n) (to_node k) msg r dist = refl
channel_of-dispatch (peer n) (to_client k) msg r dist = refl

-- For distinct peers: each connection gets, in order, the messages for it and no others.
pub dispatch_server_msg-addressed :
    (os : List Outgoing) (id : RemoteId) (r : ConnectionRegistry)
    → IsDistinct (keys r.peer_registry)
    → channel_of id (dispatch_server_msg os r)
      ≡ Option.map (push_all (addressed id os)) (channel_of id r)
unfolding dispatch_server_msg
dispatch_server_msg-addressed [] id r d = push_none (channel_of id r)
dispatch_server_msg-addressed (o ∷ os) id r d =
    dispatch_server_msg-addressed os id (dispatch o.dest o.msg r)
      (subst IsDistinct (sym (dispatch-keys o.dest o.msg r)) d)
    ∙ ap (Option.map (push_all (addressed id os))) (channel_of-dispatch id o.dest o.msg r d)
    ∙ push_one (reaches o.dest id) o.msg (addressed id os) (channel_of id r)
