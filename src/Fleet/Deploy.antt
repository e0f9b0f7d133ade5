-- ===== src/Fleet/Deploy.antt =====
-- internal/deploy/deploy.go: the steps that install the program on a node over ssh. A step answers with the
-- row at which the deployment stops, or goes on.
pub mod Script
pub mod Words
pub mod Safe
pub mod Reports
use rucher.Base.Int.{int_eq}
use rucher.Fleet.Deploy.Script.{matches_repo, provision_script, matches_ref}
use rucher.Fleet.Resolve.{resolve}
use rucher.Base.Int.{pos, ℤ}
use rucher.Host.{failed, Answer}
use rucher.Base.Text.{before, trim_space}
use rucher.Base.Result.{err, ok, Result}
use rucher.Fleet.{NodeConfig, Target, Fleet, AgentConfig, Call, StoreConfig}
use rucher.Base.{
  all, ℕ, zero, suc, ◌+◌, ◌≤◌, ◌<◌, ◌≡◌, ◌≢◌, ◌↔◌, ◌⊎◌, ◌∙◌, ◌==◌, ◌&&◌, ◌||◌, ◌<>◌, ◌∷◌, ◌++◌,
  refl, sym, ap, inl, inr, Bool, true, false, not, Option, none, some, String, List, [], map, arith,
  eq_iff, if◌then◌else◌, string_eq, nat_eq, contains, All, Bool-cases, Option-cases,
}

pub record Options : Type 0 where
  pub binary : Option String
  pub version : String
  pub repo : String
  pub podman_source : String
  pub podman_version : String
  pub bootstrap : Bool
  pub store : StoreConfig
  pub interval : String
  pub concurrency : ℤ

pub record Row : Type 0 where
  pub node : String
  pub address : String
  pub arch : String
  pub recipient : String
  pub agent_installed : Bool
  pub good : Bool
  pub errors : List String

abbrev pub new_row : String → Row
new_row name = record {
  node = name;
  address = "";
  arch = "";
  recipient = "";
  agent_installed = false;
  good = false;
  errors = [];
}

-- The deployment of a node has returned its row, or is at this step.
pub data Early {ℓ} (A : Type ℓ) : Type ℓ where
  stop : Row → Early A
  go : A → Early A

abbrev pub Steps : Type 0 → Type 0
Steps A = List Call → Early A × List Call

module _ {A B : Type 0} where
  abbrev pub resume : Early A → (A → Steps B) → List Call → Early B × List Call
  resume (stop row) f calls = (stop row, calls)
  resume (go a) f calls = f a calls

infixl 5 ◌>>=◌ ◌>>◌
abbrev pub ◌>>=◌ : {A B : Type 0} → Steps A → (A → Steps B) → Steps B
◌>>=◌ m f calls = resume (m calls).0 f (m calls).1

abbrev pub ◌>>◌ : {B : Type 0} → Steps (Unit {0}) → Steps B → Steps B
m >> n = m >>= λ _. n

-- `fail`
unfoldable pub fail : Row → String → Row
fail row msg = record row { errors = row.errors ++ msg ∷ [] }

abbrev pub pass : {A : Type 0} → A → Steps A
pass a calls = (go a, calls)

abbrev pub fail_if : Bool → Row → String → Steps (Unit {0})
fail_if bad row msg calls = (if bad then stop (fail row msg) else go tt, calls)

-- `if err != nil { return fail(row, err.Error()) }`
unfoldable pub attempt : {A : Type 0} → Row → Result A → Steps A
attempt row (ok a) calls = (go a, calls)
attempt row (err e) calls = (stop (fail row e), calls)

unfoldable pub first_line : String → String
first_line s =
    let first = trim_space (before b'\n' s) in if first == "" then "(no output)" else first

-- the message of `runStep`, when the step failed
unfoldable pub step_message : Answer → Option String
step_message a = elim a.fault [
  | some e ↦ some e
  | none ↦ if a.code == pos 0 then none else some (first_line a.stderr)
]

-- the error of a command whose answer is read
unfoldable pub answer_error : String → Answer → Option String
answer_error what a = elim a.fault [
  | some e ↦ some e
  | none ↦ if a.code == pos 0 then none else some (what <> (": " <> first_line a.stderr))
]

unfoldable pub fail_on : Row → Option String → Steps (Unit {0})
fail_on row none calls = (go tt, calls)
fail_on row (some msg) calls = (stop (fail row msg), calls)

unfoldable pub with_prefix : String → Option String → Option String
with_prefix what none = none
with_prefix what (some msg) = some (what <> (": " <> msg))

abbrev pub repo_or_default : String → String
repo_or_default repo = if repo == "" then "igk1972/rucher" else repo

abbrev pub release_dir : String → String
release_dir version =
    if version == ""
    then "/releases/latest/download/"
    else "/releases/download/" <> (version <> "/")

-- assetURL
unfoldable pub asset_url : Options → String → String
asset_url opts arch =
    "https://github.com/"
    <> (repo_or_default opts.repo <> (release_dir opts.version <> ("rucher_linux_" <> arch)))

-- the configuration that renderAgentConfig marshals
unfoldable pub agent_config : String → Options → AgentConfig
agent_config name opts =
    let kind = if opts.store.kind == "" then "git" else opts.store.kind in
    record {
      node = name;
      store = record (opts.store) {
        kind = kind;
        branch = if opts.store.branch == "" && kind == "git" then "main" else opts.store.branch;
      };
      interval = if opts.interval == "" then "30s" else opts.interval;
    }

abbrev pub chosen : String → String → String
chosen option configured = if option == "" then configured else option

abbrev pub stage_path : String
stage_path = "/usr/local/bin/.rucher.new"

abbrev pub install_path : String
install_path = "/usr/local/bin/rucher"

module _ (fleet : Fleet) where
  -- r.Run
  unfoldable pub ssh : Target → List String → Option String → Steps Answer
  ssh t argv stdin calls =
      let call : Call = record { target = t; argv = argv; stdin = stdin } in
      (go (fleet.reply calls call), call ∷ calls)

  -- `if msg, ok := runStep(...); !ok { return fail(row, what+": "+msg) }`
  unfoldable pub step : Row → Target → List String → Option String → String → Steps (Unit {0})
  step row t argv stdin what = do
    a ← ssh t argv stdin
    fail_on row (with_prefix what (step_message a))

  -- a command whose output is read
  unfoldable pub ask : Row → Target → List String → String → Steps String
  ask row t argv what = do
    a ← ssh t argv none
    fail_on row (answer_error what a)
    pass (trim_space a.stdout)

  -- 2. Base platform
  unfoldable pub provision : Row → Target → String → String → Steps (Unit {0})
  provision row t source version =
      fail_if (source == "prebuilt" && not (version == "") && not (matches_ref version)) row
        ("invalid podman version tag " <> (version <> " (expected a release tag)"))
      >> step row t ("sudo" ∷ "sh" ∷ "-s" ∷ []) (some (provision_script source version))
          "provision base platform"

  unfoldable pub upload : Row → Target → String → Steps (Unit {0})
  upload row t binary =
      step row t ("sudo" ∷ "install" ∷ "-m0755" ∷ "/dev/stdin" ∷ stage_path ∷ []) (some binary)
        "stage binary"

  unfoldable pub fetch : Row → Target → Options → Steps (Unit {0})
  fetch row t opts =
      step row t ("sudo" ∷ "curl" ∷ "-fsSL" ∷ asset_url opts row.arch ∷ "-o" ∷ stage_path ∷ []) none
        "download binary"
      >> step row t ("sudo" ∷ "chmod" ∷ "0755" ∷ stage_path ∷ []) none "chmod binary"

  unfoldable pub download : Row → Target → Options → Steps (Unit {0})
  download row t opts =
      fail_if (not (row.arch == "amd64" || row.arch == "arm64")) row
        ("unsupported architecture " <> (row.arch <> " (no release asset)"))
      >> (fail_if (not (opts.version == "" || matches_ref opts.version)) row
            ("invalid release version tag " <> opts.version)
          >> (fail_if (not (opts.repo == "" || matches_repo opts.repo)) row
                ("invalid repo " <> (opts.repo <> " (expected owner/name)"))
              >> fetch row t opts))

  unfoldable pub deliver : Row → Target → Options → Option String → Steps (Unit {0})
  deliver row t opts (some binary) = upload row t binary
  deliver row t opts none = download row t opts

  -- 4. Verify
  unfoldable pub verify : Row → Target → Steps (Unit {0})
  verify row t = do
    a ← ssh t ("test" ∷ "-x" ∷ install_path ∷ []) none
    fail_if (failed a) row ("binary not executable at " <> install_path)

  -- 6. Agent bootstrap
  unfoldable pub bootstrap_agent : Row → Target → String → Options → Steps Row
  bootstrap_agent row t name opts = do
    body ← attempt row (fleet.marshal_agent (agent_config name opts))
    step row t ("sudo" ∷ "install" ∷ "-D" ∷ "-m0600" ∷ "/dev/stdin" ∷ "/etc/rucher/agent.yml" ∷ [])
        (some body) "write agent.yml"
    _ ← ask row t ("sudo" ∷ install_path ∷ "node" ∷ "agent" ∷ "install" ∷ []) "node agent install"
    pass (record row { agent_installed = true })

  -- 5. Node key init, and the end
  unfoldable pub enroll : Row → Target → String → Options → Steps Row
  enroll row t name opts = do
    recipient ← ask row t ("sudo" ∷ install_path ∷ "node" ∷ "key" ∷ "init" ∷ []) "node key init"
    let known : Row = record row { recipient = recipient }
    last ← if opts.bootstrap then bootstrap_agent known t name opts else pass known
    pass (record last { good = true })

  -- the steps behind the first
  unfoldable pub deploy_known : Row → Target → String → NodeConfig → Options → Steps Row
  deploy_known row t name cfg opts = do
    provision row t (chosen opts.podman_source cfg.podman.source)
        (chosen opts.podman_version cfg.podman.version)
    deliver row t opts opts.binary
    step row t ("sudo" ∷ "mv" ∷ "-f" ∷ stage_path ∷ install_path ∷ []) none "install binary"
    verify row t
    enroll row t name opts

  -- 1. Architecture
  unfoldable pub deploy_to : Row → Target → String → NodeConfig → Options → Steps Row
  deploy_to row t name cfg opts = do
    arch ← ask row t ("dpkg" ∷ "--print-architecture" ∷ []) "dpkg --print-architecture"
    deploy_known (record row { arch = arch }) t name cfg opts

  unfoldable pub deploy_steps : String → Options → Steps Row
  deploy_steps name opts = do
    cfg ← attempt (new_row name) (fleet.config_of name)
    let row : Row = record (new_row name) { address = cfg.address }
    t ← attempt row (resolve fleet name cfg)
    deploy_to row t name cfg opts

  abbrev pub row_of : Early Row → Row
  row_of (stop row) = row
  row_of (go row) = row

  -- `deployOne`
  unfoldable pub deploy_one : String → Options → List Call → Row × List Call
  deploy_one name opts calls =
      let (end, calls') = deploy_steps name opts calls in (row_of end, calls')
