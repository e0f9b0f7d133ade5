-- ===== src/Cli/Deploy.antt =====
-- cmd/rucher/deploycmd.go: the flags of `ops nodes deploy`, and the options and the exit code of the run.
use rucher.Base.Decimal.{atoi}
use rucher.Cli.Parse.{and_then}
use rucher.Base.Text.{is_some}
use rucher.Base.Dict.{lookup, Dict}
use rucher.Fleet.{StoreConfig}
use rucher.Cli.{
  Parsed, parsed, problem, unknown_flag, needs_value, not_positive, binary_and_version,
  podman_not_prebuilt, is_flag,
}
use rucher.Fleet.Deploy.{Row, Options}
use rucher.Base.Int.{ℤ, pos, int_ltb}
use rucher.Base.{
  ℕ, ◌==◌, ◌&&◌, ◌||◌, ◌∷◌, ◌++◌, Bool, true, false, not, Option, none, some, String, List, [],
  if◌then◌else◌, string_eq, nat_eq,
}

pub record DeployFlags : Type 0 where
  pub version : String
  pub repo : String
  pub binary_path : String
  pub podman_prebuilt : Bool
  pub podman_version : String
  pub interval : String
  pub store : StoreConfig
  pub json_out : Bool
  pub concurrency : ℤ
  pub names : List String

abbrev empty_store : StoreConfig
empty_store = record {
  kind = "";
  url = "";
  branch = "";
  ssh_key = "";
  token = "";
  user = "";
  insecure_host_key = false;
  endpoint = "";
  bucket = "";
  prefix = "";
  access_key = "";
  secret_key = "";
  region = "";
  use_ssl = none;
}

abbrev pub default_flags : DeployFlags
default_flags = record {
  version = "";
  repo = "";
  binary_path = "";
  podman_prebuilt = false;
  podman_version = "";
  interval = "";
  store = empty_store;
  json_out = false;
  concurrency = pos 4;
  names = [];
}

-- the flags with a value, but for `--concurrency`
abbrev pub value_flags : Dict (String → DeployFlags → DeployFlags)
value_flags =
    ("--version", λ v df. record df { version = v })
    ∷ ("--repo", λ v df. record df { repo = v })
    ∷ ("--binary", λ v df. record df { binary_path = v })
    ∷ ("--podman-version", λ v df. record df { podman_version = v })
    ∷ ("--interval", λ v df. record df { interval = v })
    ∷ ("--store-url", λ v df. record df { store = record (df.store) { url = v } })
    ∷ ("--store-kind", λ v df. record df { store = record (df.store) { kind = v } })
    ∷ ("--store-branch", λ v df. record df { store = record (df.store) { branch = v } })
    ∷ ("--store-ssh-key", λ v df. record df { store = record (df.store) { ssh_key = v } })
    ∷ ("--store-token", λ v df. record df { store = record (df.store) { token = v } })
    ∷ ("--store-user", λ v df. record df { store = record (df.store) { user = v } })
    ∷ ("--store-endpoint", λ v df. record df { store = record (df.store) { endpoint = v } })
    ∷ ("--store-bucket", λ v df. record df { store = record (df.store) { bucket = v } })
    ∷ ("--store-prefix", λ v df. record df { store = record (df.store) { prefix = v } })
    ∷ ("--store-access-key", λ v df. record df { store = record (df.store) { access_key = v } })
    ∷ ("--store-secret-key", λ v df. record df { store = record (df.store) { secret_key = v } })
    ∷ ("--store-region", λ v df. record df { store = record (df.store) { region = v } })
    ∷ []

-- the flags without a value
abbrev pub switch_flags : Dict (DeployFlags → DeployFlags)
switch_flags =
    ("--podman-prebuilt", λ df. record df { podman_prebuilt = true })
    ∷ (
      "--store-insecure-host-key",
      λ df. record df { store = record (df.store) { insecure_host_key = true } },
    )
    ∷ ("--store-ssl", λ df. record df { store = record (df.store) { use_ssl = some true } })
    ∷ ("--store-no-ssl", λ df. record df { store = record (df.store) { use_ssl = some false } })
    ∷ ("--json", λ df. record df { json_out = true })
    ∷ []

unfoldable pub value_flag : String → Option (String → DeployFlags → DeployFlags)
value_flag a = lookup a value_flags

unfoldable pub switch_flag : String → Option (DeployFlags → DeployFlags)
switch_flag a = lookup a switch_flags

-- an argument that takes no value, by the switch that it is
unfoldable pub deploy_word :
    DeployFlags → String → Option (DeployFlags → DeployFlags) → Parsed DeployFlags
deploy_word df a (some switch) = parsed (switch df)
deploy_word df a none =
    if is_flag a
    then problem (unknown_flag a)
    else parsed (record df { names = df.names ++ a ∷ [] })

unfoldable pub deploy_concurrency : DeployFlags → Option ℤ → Parsed DeployFlags
deploy_concurrency df none = problem not_positive
deploy_concurrency df (some n) =
    if int_ltb n (pos 1) then problem not_positive else parsed (record df { concurrency = n })

-- an argument that is none of the flags with a value, with what stands behind it
abbrev pub takes_value : String → Bool
takes_value a = is_some (value_flag a) || a == "--concurrency"

-- the loop of parseDeploy
unfoldable pub deploy_from : DeployFlags → List String → Parsed DeployFlags
deploy_from df [] = parsed df
deploy_from df (a ∷ []) =
    if takes_value a then problem (needs_value a) else deploy_word df a (switch_flag a)
deploy_from df (a ∷ b ∷ args) = elim (value_flag a) [
  | some set ↦ deploy_from (set b df) args
  | none ↦ elim (a == "--concurrency") [
    | true ↦ and_then (deploy_concurrency df (atoi b)) (λ g. deploy_from g args)
    | false ↦ and_then (deploy_word df a (switch_flag a)) (λ g. deploy_from g (b ∷ args))
  ]
]

-- behind the loop
unfoldable pub check_flags : DeployFlags → Parsed DeployFlags
check_flags df =
    if not (df.binary_path == "") && not (df.version == "")
    then problem binary_and_version
    else if not (df.podman_version == "") && not df.podman_prebuilt
    then problem podman_not_prebuilt
    else parsed df

unfoldable pub parse_deploy : List String → Parsed DeployFlags
parse_deploy args = and_then (deploy_from default_flags args) check_flags

-- the options of the run, with the contents of the binary
unfoldable pub options_of : DeployFlags → Option String → Options
options_of df binary = record {
  binary = binary;
  version = df.version;
  repo = df.repo;
  podman_source = if df.podman_prebuilt then "prebuilt" else "";
  podman_version = df.podman_version;
  bootstrap = not (df.store.url == "") || not (df.store.bucket == "");
  store = df.store;
  interval = df.interval;
  concurrency = df.concurrency;
}

-- the loop over the rows in renderDeployTable and in renderDeployJSON
unfoldable pub deploy_code_from : ℕ → List Row → ℕ
deploy_code_from rc [] = rc
deploy_code_from rc (row ∷ rows) = deploy_code_from (if not row.good then 1 else rc) rows
