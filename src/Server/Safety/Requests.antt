-- ===== src/Server/Safety/Requests.antt =====
-- Where the entries of a log come from (src/server.rs).
use mini_raft.Prelude.{sym, subst, List, [], ◌∷◌, ℕ, AllOf, AllOf-append, AllOf-drop}
use mini_raft.Protocol.{
  LogEntry, ClientRequest, Message, append_entries_type, append_entries_response_type,
  request_vote_type, request_vote_response_type, client_request_type, client_response_type,
  hello_type, hello_client_type, Outgoing,
}
use mini_raft.Server.State.{Server}
use mini_raft.Server.Append.Kept.{merge_entries-AllOf}
use mini_raft.Server.Steps.{Write, sent, merged, pushed, IsOwn, IsOf}

module _ (Asked : ClientRequest → Type 0) where
  -- An entry that carries a request that was made.
  abbrev pub IsRequested : LogEntry → Type 0
  IsRequested entry = (request : ClientRequest) × Asked request × IsOf request entry

  abbrev pub CarriesRequests : Message → Type 0
  CarriesRequests (append_entries_type a) = AllOf IsRequested a.entries
  CarriesRequests (client_request_type request) = Asked request
  CarriesRequests _ = Unit

  abbrev pub IsSentOn : Outgoing → Type 0
  IsSentOn o = CarriesRequests o.msg

  IsOwn-CarriesRequests :
      (term : ℕ) (log : List LogEntry) (msg : Message)
      → AllOf IsRequested log
      → IsOwn term log msg
      → CarriesRequests msg
  IsOwn-CarriesRequests term log (append_entries_type a) h (same, k, e) =
      subst (AllOf IsRequested) (sym e) (AllOf-drop IsRequested k log h)
  IsOwn-CarriesRequests term log (append_entries_response_type _) h w = tt
  IsOwn-CarriesRequests term log (request_vote_type _) h w = tt
  IsOwn-CarriesRequests term log (request_vote_response_type _) h w = tt
  IsOwn-CarriesRequests term log (client_request_type _) h w = absurd w
  IsOwn-CarriesRequests term log (client_response_type _) h w = tt
  IsOwn-CarriesRequests term log (hello_type _) h w = tt
  IsOwn-CarriesRequests term log (hello_client_type _) h w = tt

  pub record HasRequests {S : Type 0} (s : Server S) : Type 0 where
    pub entries : AllOf IsRequested s.log
    pub sent_on : AllOf IsSentOn s.to_network.sent

  module _ {S : Type 0} where
    pub Write-HasRequests :
        (s t : Server S) → Write CarriesRequests s t → HasRequests s → HasRequests t
    Write-HasRequests s t (sent o room w) h = record {
      entries = h.entries;
      sent_on =
          AllOf-append IsSentOn s.to_network.sent (o ∷ []) h.sent_on
            (IsOwn-CarriesRequests s.current_term s.log o.msg h.entries w, tt);
    }
    Write-HasRequests s t (merged a log g le e) h = record {
      entries = merge_entries-AllOf IsRequested a.entries s.log log g h.entries e;
      sent_on = h.sent_on;
    }
    Write-HasRequests s t (pushed request entry g of term index) h = record {
      entries = AllOf-append IsRequested s.log (entry ∷ []) h.entries ((request, g, of), tt);
      sent_on = h.sent_on;
    }
    Write-HasRequests s t _ h = record { entries = h.entries; sent_on = h.sent_on }
