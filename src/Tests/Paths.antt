-- ===== src/Tests/Paths.antt =====
-- Where a node started from a shell looks for its configuration (src/main.rs).
use mini_raft.Prelude.{◌≡◌, refl, if◌then◌else◌, String, some, none, [], ◌∷◌, ◌++◌}
use text.Mathlib.Text.{◌==◌}
use mini_raft.Config.Load.{ConfigCrate, load_from, load}
use mini_raft.Startup.Main.{configured, configured-stem}
use mini_raft.Tests.{five_nodes}
use mini_raft.Startup.{option_with}

-- A crate that knows one file, by its stem.
abbrev one_file : ConfigCrate String String
one_file = record {
  builder = "";
  set_default = λ key value b. some b;
  add_file = λ name required b. name;
  add_environment = λ prefix separator parsing b. b;
  build = λ b. if b == "node2" then some b else none;
  try_deserialize = λ b. some five_nodes;
}

configured-stem_example :
    (configured one_file (("mini_raft" ∷ []) ++ "--config" ∷ "node2.toml" ∷ []) none
      ≡ load_from one_file "node2")
    × (configured one_file (("mini_raft" ∷ []) ++ option_with "node2.toml" ∷ []) none
        ≡ load_from one_file "node2")
    × (configured one_file ("mini_raft" ∷ []) (some "node2.toml") ≡ load one_file (some "node2"))
    × (configured one_file ("mini_raft" ∷ []) none ≡ load one_file none)
configured-stem_example =
    configured-stem one_file ("mini_raft" ∷ []) [] "node2" none ((refl, refl), tt) refl

node2_loads : load_from one_file "node2.toml" ≡ some five_nodes
unfolding load_from
node2_loads = refl
