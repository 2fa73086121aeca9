-- ===== src/Startup.antt =====
-- Where the binary looks for its configuration (`resolve_config_path`, src/main.rs). The arguments
-- of the process and the variable `MINI_RAFT_CONFIG` are arguments here.
pub mod Main
use Prim.Native.String
use Prim.Native.String.{slice, len}
use text.Mathlib.Text.{◌==◌, starts_with}
use text.Mathlib.TextPositions.{len-append, slice-append_right, starts_with-append}
use text.Mathlib.TextEquality.{eq_iff}
use mini_raft.Prelude.{
  String, Option, none, some, List, [], ◌∷◌, ◌++◌, ◌≡◌, refl, ap, ◌∙◌, Bool-cases, inl, inr, arith,
  false, if◌then◌else◌,
}

abbrev pub strip_prefix : String → String → Option String
strip_prefix prefix s = if starts_with s prefix then some (slice s (len prefix) (len s)) else none

unfoldable pub config_argument : List String → Option String
config_argument [] = none
config_argument (arg ∷ []) = strip_prefix "--config=" arg
config_argument (arg ∷ next ∷ rest) =
    let later = config_argument (next ∷ rest) in
    if arg == "--config"
    then some next
    else elim (strip_prefix "--config=" arg) [ some path ↦ some path | none ↦ later ]

-- `variable` is `MINI_RAFT_CONFIG`, if it is set.
unfoldable pub resolve_config_path : List String → Option String → String
unfolding config_argument
resolve_config_path args variable = elim (config_argument args) [
  | some path ↦ path
  | none ↦ elim variable [ some path ↦ path | none ↦ "config" ]
]

-- An argument that names no configuration.
abbrev pub IsPlain : String → Type 0
IsPlain arg = ((arg == "--config") ≡ false) × (starts_with arg "--config=" ≡ false)

abbrev pub AllPlain : List String → Type 0
AllPlain [] = Unit
AllPlain (arg ∷ args) = IsPlain arg × AllPlain args

config_argument-plain :
    (arg : String) (args : List String)
    → IsPlain arg
    → config_argument (arg ∷ args) ≡ config_argument args
unfolding config_argument
config_argument-plain arg [] (a, b) = rw b refl
config_argument-plain arg (next ∷ rest) (a, b) = rw (a, b) refl

config_argument-skip :
    (plain args : List String)
    → AllPlain plain
    → config_argument (plain ++ args) ≡ config_argument args
config_argument-skip [] args _ = refl
config_argument-skip (arg ∷ plain) args (p, ps) =
    config_argument-plain arg (plain ++ args) p ∙ config_argument-skip plain args ps

config_argument-none : (plain : List String) → AllPlain plain → config_argument plain ≡ none
unfolding config_argument
config_argument-none [] _ = refl
config_argument-none (arg ∷ plain) (p, ps) =
    config_argument-plain arg plain p ∙ config_argument-none plain ps

strip_prefix-append :
    (prefix path : String) → strip_prefix prefix (String.◌++◌ prefix path) ≡ some path
strip_prefix-append prefix path =
    rw (starts_with-append prefix path, len-append prefix path)
      (ap some (slice-append_right prefix path))

abbrev pub option_with : String → String
option_with path = String.◌++◌ "--config=" path

option_with-longer : (path : String) → (option_with path == "--config") ≡ false
option_with-longer path = elim (Bool-cases (option_with path == "--config")) [
  | inr e ↦ e
  | inl e ↦ absurd (
      omega
        (arith, len-append "--config=" path, ap len ((eq_iff (option_with path) "--config").0 e)))
]

config_argument_joined :
    (path : String) (rest : List String) → config_argument (option_with path ∷ rest) ≡ some path
unfolding config_argument
config_argument_joined path [] = strip_prefix-append "--config=" path
config_argument_joined path (next ∷ rest) =
    rw (option_with-longer path, strip_prefix-append "--config=" path) refl

-- Behind plain arguments, `--config` with a path behind it, or `--config=` with a path in one
-- argument, names the configuration; without either it is the variable, and `config` without that.
pub resolve_config_path_lem :
    (plain rest : List String) (path : String) (variable : Option String)
    → AllPlain plain
    → (resolve_config_path (plain ++ "--config" ∷ path ∷ rest) variable ≡ path)
      × (resolve_config_path (plain ++ option_with path ∷ rest) variable ≡ path)
      × (resolve_config_path plain (some path) ≡ path)
      × (resolve_config_path plain none ≡ "config")
unfolding resolve_config_path config_argument
resolve_config_path_lem plain rest path variable p =
    let skip = λ (args : List String). config_argument-skip plain args p in
    (
      rw (resolve_config_path, skip ("--config" ∷ path ∷ rest)) refl,
      rw (resolve_config_path, skip (option_with path ∷ rest), config_argument_joined path rest)
          refl,
      rw (resolve_config_path, config_argument-none plain p) refl,
      rw (resolve_config_path, config_argument-none plain p) refl,
    )
