-- ===== src/State.antt =====
-- internal/state/state.go: the last applied state of a cadre, hashes only.
use rucher.Base.{String, List, []}
use rucher.Base.Int.{ℤ, pos}
use rucher.Base.Dict.{Dict}
use rucher.Manifest.{Resources}

pub record State : Type 0 where
  pub name : String
  pub uid : ℤ
  pub files : Dict String
  pub secret_hashes : Dict String
  pub units : List String
  pub systemd_units : List String
  pub resources : Resources
  pub registries_hash : String

-- State{} and `empty()`: an unset map reads as an empty one.
abbrev pub empty : State
empty = record {
  name = "";
  uid = pos 0;
  files = [];
  secret_hashes = [];
  units = [];
  systemd_units = [];
  resources = record { memory_max = ""; cpu_quota = "" };
  registries_hash = "";
}
