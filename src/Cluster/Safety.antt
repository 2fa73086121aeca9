-- ===== src/Cluster/Safety.antt =====
-- What holds of all nodes that run the server of src/server.rs side by side from their start.
use mini_raft.Prelude.{ℕ, [], AllOf-mono}
use mini_raft.Protocol.{
  ClientRequest, Message, append_entries_type, client_request_type, client_response_type,
  hello_type, hello_client_type,
}
use mini_raft.Config.{ServerConfig}
use mini_raft.StateMachine.{StateMachine}
use mini_raft.Server.State.{new, new_state}
use mini_raft.Server.Safety.Terms.{HasTerms, IsSound, IsSentBy, Write-HasTerms}
use mini_raft.Server.Safety.Requests.{HasRequests, CarriesRequests, Write-HasRequests}
use mini_raft.Cluster.{Cluster}
use mini_raft.Cluster.History.{Histories, IsInvariant, Possible, nodes_after, Possible-kept}

-- What comes from outside: requests that were made, greetings and answers.
abbrev pub IsOutside : (ClientRequest → Type 0) → Message → Type 0
IsOutside Asked (client_request_type request) = Asked request
IsOutside Asked (client_response_type _) = Unit
IsOutside Asked (hello_type _) = Unit
IsOutside Asked (hello_client_type _) = Unit
IsOutside Asked _ = ⊥

-- Nodes that have just been made.
abbrev pub started : {S : Type 0} → (ℕ → ServerConfig) → S → (ℕ → ℕ) → (ℕ → ℕ) → Cluster S
started configs store room now i =
    new i (configs i) store (record { sent = []; room = room i }) (now i)

module _ (Asked : ClientRequest → Type 0) where
  outside-IsSound : (msg : Message) → IsOutside Asked msg → IsSound msg
  outside-IsSound (append_entries_type _) h = absurd h
  outside-IsSound _ h = tt

  outside-CarriesRequests : (msg : Message) → IsOutside Asked msg → CarriesRequests Asked msg
  outside-CarriesRequests (client_request_type _) h = h
  outside-CarriesRequests (append_entries_type _) h = absurd h
  outside-CarriesRequests _ h = tt

module _ {S : Type 0} where
  terms_invariant : IsInvariant {S = S} IsSound HasTerms
  terms_invariant = record {
    kept = Write-HasTerms;
    sends = λ s h.
        AllOf-mono (IsSentBy s.current_term) (λ o. IsSound o.msg) (λ o g. g.0) s.to_network.sent
          h.sent;
  }

  requests_invariant :
      (Asked : ClientRequest → Type 0)
      → IsInvariant {S = S} (CarriesRequests Asked) (HasRequests Asked)
  requests_invariant Asked = record { kept = Write-HasRequests Asked; sends = λ s h. h.sent_on }

module _ {S : Type 0} (configs : ℕ → ServerConfig) (store : S) (room now : ℕ → ℕ) where
  started-HasTerms : (i : ℕ) → HasTerms (started configs store room now i)
  unfolding new new_state
  started-HasTerms i = record { entries = tt; sent = tt }

  started-HasRequests :
      (Asked : ClientRequest → Type 0) (i : ℕ)
      → HasRequests Asked (started configs store room now i)
  unfolding new new_state
  started-HasRequests Asked i = record { entries = tt; sent_on = tt }

  module _ ⦃m : StateMachine S⦄ (Asked : ClientRequest → Type 0) {hs : Histories}
      (possible : Possible now (started configs store room now) (IsOutside Asked) hs) where
    -- Nodes that have just been made and that run side by side, each on the events of its history,
    -- where a node hears only what some node has sent by then in its own run, requests that were
    -- made, greetings and answers to clients, in any order, repeated or not at all: after their runs
    -- no entry of a node's log is of a later term than the node's own, and no message that it has
    -- sent is of a later term or holds an entry of a later term than the message.
    pub Possible-HasTerms :
        (i : ℕ) → HasTerms (nodes_after now (started configs store room now) hs i)
    Possible-HasTerms =
        Possible-kept now (started configs store room now) terms_invariant (outside-IsSound Asked)
          started-HasTerms possible

    -- Nodes that have just been made and that run side by side, each on the events of its history,
    -- where a node hears only what some node has sent by then in its own run, requests that were
    -- made, greetings and answers to clients, in any order, repeated or not at all: after their runs
    -- every entry of a node's log, and every entry of every message that it has sent, carries the
    -- command, the client and the request number of a request that was made.
    pub Possible-HasRequests :
        (i : ℕ) → HasRequests Asked (nodes_after now (started configs store room now) hs i)
    Possible-HasRequests =
        Possible-kept now (started configs store room now) (requests_invariant Asked)
          (outside-CarriesRequests Asked) (started-HasRequests Asked) possible
