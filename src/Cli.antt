-- ===== src/Cli.antt =====
-- cmd/rucher/main.go and `parseNetJoin` of cmd/rucher/netcmd.go: the command line. A line is taken apart
-- into a command, with the exit code left to its own function, or into a text that is shown with an exit
-- code. The texts are named, not written out.
pub mod Parse
pub mod Dispatch
pub mod Clean
pub mod Names
pub mod Reads
pub mod Deploy
pub mod DeployFlags
pub mod Commands
pub mod Exit
use rucher.Base.Text.{has_prefix}
use rucher.Base.Int.{ℤ}
use rucher.Base.{
  ℕ, zero, suc, ◌+◌, ◌≤◌, ◌<◌, ◌≡◌, ◌≢◌, ◌↔◌, ◌⊎◌, ◌∙◌, ◌==◌, ◌&&◌, ◌||◌, ◌<>◌, ◌∷◌, ◌++◌, refl,
  sym, ap, inl, inr, Bool, true, false, not, Option, none, some, String, List, [], map, arith,
  eq_iff, if◌then◌else◌, string_eq, nat_eq, contains, All, Bool-cases, Option-cases,
}

-- what is wrong with the arguments
pub data Problem : Type 0 where
  unknown_flag : String → Problem
  needs_value : String → Problem
  unexpected : String → Problem
  single_name : Problem
  no_name : Problem
  no_address : Problem
  blank_address : Problem
  not_positive : Problem
  binary_and_version : Problem
  podman_not_prebuilt : Problem

pub data Parsed {ℓ} (A : Type ℓ) : Type ℓ where
  parsed : A → Parsed A
  problem : Problem → Parsed A

-- the usage texts, by the part of the command line that they are about
pub data Usage : Type 0 where
  whole : Usage
  node_side : Usage
  ops_side : Usage
  key_line : Usage
  agent_line : Usage
  cadre_line : Usage
  new_line : Usage
  logs_line : Usage
  rm_line : Usage
  recipient_line : Usage
  init_line : Usage
  seal_line : Usage
  secrets_line : Usage
  nodes_line : Usage

-- the functions that carry a command out, with their arguments
pub data Command : Type 0 where
  apply : String → List String → Command
  new : String → Command
  status : List String → Command
  logs : String → String → Command
  rm : String → Bool → Command
  age_recipient : String → Command
  node_init : Command
  node_recipient : Command
  agent_run : String → Command
  agent_install : String → Command
  init : String → String → Command
  validate : String → List String → Command
  plan : String → List String → Command
  keygen : List String → Command
  nodes_status : String → List String → Bool → Bool → ℤ → Command
  net_join : String → List String → Command
  nodes_deploy : String → List String → Command
  secrets_encrypt : List String → Command

pub data Action : Type 0 where
  command : Command → Action
  show : Usage → ℕ → Action
  refuse : Problem → ℕ → Action
  unknown : String → ℕ → Action
  apply_all_only : ℕ → Action
  apply_needs_name : ℕ → Action

abbrev pub is_flag : String → Bool
is_flag a = has_prefix a "-"

-- the exit code of a line that reaches no command
abbrev pub code_of : Action → Option ℕ
code_of (command c) = none
code_of (show u n) = some n
code_of (refuse p n) = some n
code_of (unknown a n) = some n
code_of (apply_all_only n) = some n
code_of (apply_needs_name n) = some n
