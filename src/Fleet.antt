-- ===== src/Fleet.antt =====
-- The operator's side: internal/sshx/sshx.go, the types of internal/nodecfg and internal/agentcfg, and what
-- a run over the nodes is given from outside the program.
pub mod Merge
pub mod Config
pub mod Resolve
pub mod Deploy
pub mod Status
pub mod Defaults
use rucher.Base.Result.{Result}
use rucher.Host.{Answer}
use rucher.Base.Int.{ℤ}
use rucher.Base.{
  is_empty, ℕ, zero, suc, ◌+◌, ◌≤◌, ◌<◌, ◌≡◌, ◌≢◌, ◌↔◌, ◌⊎◌, ◌∙◌, ◌==◌, ◌&&◌, ◌||◌, ◌<>◌, ◌∷◌, ◌++◌,
  refl, sym, ap, inl, inr, Bool, true, false, not, Option, none, some, String, List, [], map, arith,
  eq_iff, if◌then◌else◌, string_eq, nat_eq, contains, All, Bool-cases, Option-cases,
}

pub record Target : Type 0 where
  pub addr : String
  pub user : String
  pub identity : String

-- a call of `Run` of the interface Runner
pub record Call : Type 0 where
  pub target : Target
  pub argv : List String
  pub stdin : Option String

-- `Connection`, and of `Config` the fields that the program reads
pub record Connection : Type 0 where
  pub host : String
  pub user : String
  pub port : ℤ
  pub identity : String

pub record Podman : Type 0 where
  pub source : String
  pub version : String

pub record NodeConfig : Type 0 where
  pub address : String
  pub connection : Connection
  pub podman : Podman

-- `StoreConfig`; no value of use_ssl is a nil pointer
pub record StoreConfig : Type 0 where
  pub kind : String
  pub url : String
  pub branch : String
  pub ssh_key : String
  pub token : String
  pub user : String
  pub insecure_host_key : Bool
  pub endpoint : String
  pub bucket : String
  pub prefix : String
  pub access_key : String
  pub secret_key : String
  pub region : String
  pub use_ssl : Option Bool

-- `Config` of internal/agentcfg
pub record AgentConfig : Type 0 where
  pub node : String
  pub store : StoreConfig
  pub interval : String

-- What a run is given: the answers over ssh, which may depend on every call before, the configuration of
-- each node, its address from the ssh.config of lima by the names of the settings, the home directory,
-- and the YAML encoder.
pub record Fleet : Type 0 where
  pub reply : List Call → Call → Answer
  pub config_of : String → Result NodeConfig
  pub lima : String → Option (String → String)
  pub home : Option String
  pub marshal_agent : AgentConfig → Result String

pub append-non_empty : (xs : List String) (x : String) → is_empty (xs ++ x ∷ []) ≡ false
append-non_empty [] x = refl
append-non_empty (y ∷ ys) x = refl
