-- ===== src/Cluster/Wire.antt =====
-- Nodes that hear each other through the network manager (src/server.rs, src/network.rs, src/codec.rs).
use mini_raft.Prelude.{
  ℕ, ◌≡◌, refl, subst, inl, inr, ◌⊎◌, some, Bool-cases, List, [], ◌∷◌, map, take, AllOf, AllOf-take,
  AllOf-mono,
}
use mini_raft.Protocol.{RemoteId, peer, Message, Incoming, Outgoing}
use mini_raft.StateMachine.{StateMachine}
use mini_raft.Server.Loop.{Event, run}
use mini_raft.Server.Steps.Loops.{AllHeard, AllHeard-mono}
use mini_raft.Codec.{SerdeJson, ReadsBack, BytesMut}
use mini_raft.Codec.Stream.{encode_all, Fit}
use mini_raft.Network.Registry.{keys, ConnectionRegistry}
use mini_raft.Network.Registry.Sends.{IsDistinct}
use mini_raft.Network.Dispatch.Delivery.{reaches, addressed, channel_of}
use mini_raft.Network.Connect.Registered.{fresh}
use mini_raft.Network.Tasks.Delivers.{incoming}
use mini_raft.Network.EndToEnd.{carried, carried_messages, carried_in_order}
use mini_raft.Cluster.{Cluster, IsIn, CanHear, Reaches, Reaches-run, replaced}

-- What is addressed to someone was sent.
addressed-IsIn : (id : RemoteId) (os : List Outgoing) → AllOf (λ m. IsIn m os) (addressed id os)
addressed-IsIn id [] = tt
addressed-IsIn id (o ∷ os) =
    let later =
      AllOf-mono (λ m. IsIn m os) (λ m. IsIn m (o ∷ os)) (λ m h. inr h) (addressed id os)
        (addressed-IsIn id os) in
    elim (Bool-cases (reaches o.dest id)) [ inl e ↦ rw e (inl refl, later) | inr e ↦ rw e later ]

-- Messages that came in are among these.
abbrev pub HasCome : List Incoming → Message → Type 0
HasCome [] msg = ⊥
HasCome (x ∷ xs) msg = (x.msg ≡ msg) ⊎ HasCome xs msg

HasCome-all :
    (P : Message → Type 0) (from : RemoteId) (ms : List Message) (msg : Message)
    → AllOf P ms
    → HasCome (map (incoming from) ms) msg
    → P msg
HasCome-all P from [] msg h k = absurd k
HasCome-all P from (m ∷ ms) msg h (inl e) = subst P e h.0
HasCome-all P from (m ∷ ms) msg h (inr k) = HasCome-all P from ms msg h.1 k

module _ {S : Type 0} ⦃m : StateMachine S⦄ {Outside : Message → Type 0}
    {nodes later : Cluster S} where
  -- In a cluster that is reached, node i's messages go through its network manager to node j, whose
  -- channel from the network is still empty; no peer is registered twice, the connection to j has a
  -- fresh channel, a serde_json reads back what it wrote, and each message that the channel and the
  -- socket take for j has a JSON shorter than 4 GiB. Node j then runs on any events whose messages have
  -- come in that way: to do so is a step of the cluster, in which a node hears only what some node has
  -- sent or what comes from outside.
  pub Reaches-carried :
      (json : SerdeJson)
      → ReadsBack json
      → (i j room taken space now : ℕ) (r : ConnectionRegistry) (out : BytesMut)
        (events : List Event)
      → IsDistinct (keys r.peer_registry)
      → channel_of (peer j) r ≡ some (fresh room)
      → Fit json (carried_messages (peer j) (later i).to_network.sent room taken)
      → encode_all json (carried_messages (peer j) (later i).to_network.sent room taken) []
        ≡ some out
      → AllHeard
          (HasCome
            (carried json
              (peer i)
              (peer j)
              (later i).to_network.sent
              taken
              r
              (record { sent = []; room = space })).sent)
          events
      → Reaches Outside nodes later
      → Reaches Outside nodes (replaced j (run now events (later j)).1 later)
  Reaches-carried json law i j room taken space now r out events distinct connected fit h heard
        reached =
      let os = (later i).to_network.sent in
      let through = carried_messages (peer j) os room taken in
      let arrives =
        carried_in_order json law (peer i) (peer j) os room taken r out
          (record { sent = []; room = space }) distinct connected fit h in
      Reaches-run j now events
        (AllHeard-mono _ (CanHear Outside later)
          (λ msg g. inr (
            i,
            HasCome-all (λ x. IsIn x os) (peer i) (take space through) msg
                (AllOf-take (λ x. IsIn x os) space through
                  (AllOf-take (λ x. IsIn x os) taken (take room (addressed (peer j) os))
                    (AllOf-take (λ x. IsIn x os) room (addressed (peer j) os)
                      (addressed-IsIn (peer j) os))))
                (subst (λ xs. HasCome xs msg) arrives g),
          ))
          events heard)
        reached
