-- ===== src/Config/Load.antt =====
-- Loading the configuration (`load`, `load_from`, src/config.rs). The `config` crate, which reads the
-- file and the environment, is a parameter.
use Prim.Native.String
use Prim.Native.String.{slice, len}
use text.Mathlib.Text.{◌==◌}
use text.Mathlib.TextPositions.{len-append, slice-append_left, slice-append_right, eq_refl}
use mini_raft.Prelude.{
  ℕ, ◌+◌, ◌-◌, String, Bool, true, Option, none, some, ◌≡◌, refl, ◌∙◌, ap, sym, arith,
  if◌then◌else◌,
}
use mini_raft.Config.{ServerConfig}

-- The crate's builder and what it builds: `set_default`, a file with its name and whether it is
-- required, the environment with its prefix, its separator and whether values are parsed, `build` and
-- `try_deserialize`. `none` for an `Err`.
pub record ConfigCrate (Builder Built : Type 0) : Type 0 where
  pub builder : Builder
  pub set_default : String → ℕ → Builder → Option Builder
  pub add_file : String → Bool → Builder → Builder
  pub add_environment : String → String → Bool → Builder → Builder
  pub build : Builder → Option Built
  pub try_deserialize : Built → Option ServerConfig

-- `str::strip_suffix`.
abbrev pub strip_suffix : String → String → Option String
strip_suffix suffix s =
    let start = len s - len suffix in
    if slice s start (len s) == suffix then some (slice s 0 start) else none

abbrev and_then : {A B : Type 0} → Option A → (A → Option B) → Option B
and_then none f = none
and_then (some a) f = f a

-- `strip_suffix(".toml").unwrap_or(path)`.
unfoldable pub stem_of : String → String
stem_of path = elim (strip_suffix ".toml" path) [ none ↦ path | some stem ↦ stem ]

module _ {Builder Built : Type 0} (crate : ConfigCrate Builder Built) where
  unfoldable pub load_from : String → Option ServerConfig
  unfolding stem_of
  load_from path = and_then (crate.set_default "election_timeout" 500 crate.builder) λ timeout.
      and_then (crate.set_default "heartbeat_interval" 200 timeout) λ defaults.
        and_then
          (crate.build (
            crate.add_environment "MINI_RAFT" "_" true
              (crate.add_file (stem_of path) true defaults)))
          crate.try_deserialize

  -- `variable` is `MINI_RAFT_CONFIG`, if it is set.
  unfoldable pub load : Option String → Option ServerConfig
  unfolding load_from
  load none = load_from "config"
  load (some path) = load_from path

strip_suffix-append :
    (stem suffix : String) → strip_suffix suffix (String.◌++◌ stem suffix) ≡ some stem
strip_suffix-append stem suffix =
    let cut : (len stem + len suffix) - len suffix ≡ len stem = omega arith in
    rw (len-append stem suffix, cut, slice-append_right stem suffix, eq_refl suffix)
      (ap some (slice-append_left stem suffix))

stem_of-append : (stem : String) → stem_of (String.◌++◌ stem ".toml") ≡ stem
unfolding stem_of
stem_of-append stem = rw (stem_of, strip_suffix-append stem ".toml") refl

stem_of-plain : (path : String) → strip_suffix ".toml" path ≡ none → stem_of path ≡ path
unfolding stem_of
stem_of-plain path h = rw (stem_of, h) refl

module _ {Builder Built : Type 0} (crate : ConfigCrate Builder Built) where
  -- Only the stem counts.
  load_from-eq :
      (path other : String)
      → stem_of path ≡ stem_of other
      → load_from crate path ≡ load_from crate other
  unfolding load_from
  load_from-eq path other e =
      ap
        (λ (stem : String).
          and_then (crate.set_default "election_timeout" 500 crate.builder) λ timeout.
            and_then (crate.set_default "heartbeat_interval" 200 timeout) λ defaults.
              and_then
                (crate.build
                  (crate.add_environment "MINI_RAFT" "_" true (crate.add_file stem true defaults)))
                crate.try_deserialize)
        e

  -- A name of a file with `.toml` and the same name without it load the same.
  pub load_from-toml :
      (stem : String)
      → strip_suffix ".toml" stem ≡ none
      → load_from crate (String.◌++◌ stem ".toml") ≡ load_from crate stem
  load_from-toml stem h =
      load_from-eq (String.◌++◌ stem ".toml") stem
        (stem_of-append stem ∙ sym (stem_of-plain stem h))
