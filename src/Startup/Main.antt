-- ===== src/Startup/Main.antt =====
-- What `main` (src/main.rs) puts together before its tasks run: the configuration, the server, and the
-- network manager's registry with the peers that it dials.
use Prim.Native.String
use mini_raft.Prelude.{
  Bool, ◌&&◌, if◌then◌else◌, ℕ, String, Option, none, some, List, ◌∷◌, ◌++◌, ◌≡◌, ap, ◌∙◌,
}
use mini_raft.Protocol.{NodeId}
use mini_raft.Config.{ServerConfig, peer_node_addresses}
use mini_raft.Config.Load.{ConfigCrate, strip_suffix, load_from, load_from-toml, load}
use mini_raft.StateMachine
use mini_raft.StateMachine.{SimpleStateMachine}
use mini_raft.Server.State
use mini_raft.Server.State.{Server, Sender}
use mini_raft.Network.Manager
use mini_raft.Network.Manager.{NetworkManager}
use mini_raft.Network.Tasks.{ToServer}
use mini_raft.Network.Registry.{ConnectionRegistry}
use mini_raft.Network.Connect.{Conn, dial_peers}
use mini_raft.Startup.{resolve_config_path, AllPlain, option_with, resolve_config_path_lem}

pub record Node : Type 0 where
  pub server : Server SimpleStateMachine
  pub network_manager : NetworkManager
  pub peer_addresses : List (NodeId × String)

-- `to_network` is the sending end of the channel that `dispatch_server_msg` reads, `to_server` that of
-- the channel that the server reads.
unfoldable pub put_together : ServerConfig → Sender → ToServer → ℕ → Node
unfolding State.new Manager.new peer_node_addresses StateMachine.new
put_together config to_network to_server now = record {
  server = State.new config.node_id config StateMachine.new to_network now;
  network_manager = Manager.new to_server config.node_id;
  peer_addresses = peer_node_addresses config;
}

-- The listener for clients, and then the one for peers.
unfoldable pub bind_listeners : (String → Bool) → ServerConfig → Bool
bind_listeners binds config =
    binds config.client_listener_address && binds config.peer_listener_address

-- The dialling that `main` ends with.
unfoldable pub dial : (NodeId → ℕ → Option Conn) → Node → ConnectionRegistry
unfolding dial_peers
dial connect node =
    dial_peers connect node.peer_addresses node.server.id node.network_manager.connections_map

module _ {Builder Built : Type 0} (crate : ConfigCrate Builder Built) where
  unfoldable pub configured : List String → Option String → Option ServerConfig
  unfolding resolve_config_path load_from
  configured args variable = load_from crate (resolve_config_path args variable)

  -- `binds` is whether `TcpListener::bind` takes an address. `none` where the configuration does not
  -- load or a listener is not bound; the tasks that were spawned before end with the process then.
  unfoldable pub main :
      (String → Bool) → List String → Option String → Sender → ToServer → ℕ → Option Node
  unfolding configured put_together bind_listeners
  main binds args variable to_network to_server now = elim (configured args variable) [
    | none ↦ none
    | some config ↦
        if bind_listeners binds config
        then some (put_together config to_network to_server now)
        else none
  ]

  -- Behind plain arguments, a name of a file after `--config`, after `--config=` or in the variable
  -- loads the same with `.toml` at its end as without; with none of them it is `config`, as `load`
  -- takes it. The name without `.toml` must not end in `.toml` once more.
  pub configured-stem :
      (plain rest : List String) (stem : String) (variable : Option String)
      → AllPlain plain
      → strip_suffix ".toml" stem ≡ none
      → (configured (plain ++ "--config" ∷ String.◌++◌ stem ".toml" ∷ rest) variable
          ≡ load_from crate stem)
        × (configured (plain ++ option_with (String.◌++◌ stem ".toml") ∷ rest) variable
            ≡ load_from crate stem)
        × (configured plain (some (String.◌++◌ stem ".toml")) ≡ load crate (some stem))
        × (configured plain none ≡ load crate none)
  unfolding configured load
  configured-stem plain rest stem variable p h =
      let (a, b, c, d) = resolve_config_path_lem plain rest (String.◌++◌ stem ".toml") variable p in
      let same = load_from-toml crate stem h in
      (
        ap (load_from crate) a ∙ same,
        ap (load_from crate) b ∙ same,
        ap (load_from crate) c ∙ same,
        ap (load_from crate) d,
      )
