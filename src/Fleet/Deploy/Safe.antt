-- ===== src/Fleet/Deploy/Safe.antt =====
-- What reaches the shell of a node: sshx joins the words of a command and leaves the splitting to it.
use rucher.Fleet.Deploy.Words.{matches_ref-safe, asset_url-safe, shell_safe}
use Prim.Native.String.append.{cons}
use rucher.Host.{failed}
use rucher.Base.Result.{err, ok, Result}
use rucher.Fleet.{NodeConfig, Target, Fleet, Call}
use rucher.Base.Text.{trim_space}
use rucher.Fleet.Deploy.Script.{
  apt_podman, before_url, behind_url, base_script, prebuilt_podman, podman_tarball_url,
  provision_script, matches_repo, matches_ref,
}
use rucher.Base.{
  code, ap, All_contains, ◌⊎◌, ◌<>◌, any, contains, all, ◌≡◌, ◌==◌, ◌&&◌, ◌||◌, ◌∷◌, refl, inl, inr,
  Bool, true, false, not, Option, none, some, String, List, [], arith, eq_iff, if◌then◌else◌,
  string_eq, nat_eq, All, Bool-cases,
}
use rucher.Fleet.Deploy.{
  repo_or_default, release_dir, deploy_one, deploy_steps, deploy_to, deploy_known, enroll,
  bootstrap_agent, install_path, verify, deliver, fetch, stage_path, download, upload, provision,
  answer_error, go, stop, ask, step, ssh, fail_if, resume, fail_on, attempt, Row, pass, Early,
  Steps, Options, asset_url, ◌>>=◌, ◌>>◌,
}

-- Some word is the name of a shell.
abbrev shells : List String
shells = "sh" ∷ "bash" ∷ "/bin/sh" ∷ "/bin/bash" ∷ []

abbrev is_shell : List String → Bool
is_shell argv = any (λ word. contains word shells) argv

abbrev distro_script : String
distro_script = "set -e\n" <> (apt_podman <> base_script)

-- the script that installs podman from a path under the releases of its packages
abbrev release_script : String → String
release_script path =
    let url =
      "https://github.com/igk1972/podman-6-deb/releases/"
      <> (path <> "podman6-trixie-${arch}.tar.gz") in
    "set -e\n" <> ((before_url <> (url <> behind_url)) <> base_script)

-- a script whose text is fixed, or fixed but for a version of plain characters
abbrev IsScript : Option String → Type 0
IsScript stdin =
    (stdin ≡ some distro_script)
    ⊎ ((stdin ≡ some (release_script "latest/download/"))
        ⊎ ((version : String) × (shell_safe version ≡ true)
            × (stdin ≡ some (release_script ("download/" <> (version <> "/"))))))

provision_script-IsScript :
    (source version : String)
    → (source == "prebuilt" && not (version == "") && not (matches_ref version)) ≡ false
    → IsScript (some (provision_script source version))
unfolding provision_script prebuilt_podman podman_tarball_url
provision_script-IsScript source version h = elim (Bool-cases (source == "prebuilt")) [
  | inr other ↦ inl (rw other refl)
  | inl prebuilt ↦ elim (Bool-cases (version == "")) [
    | inl latest ↦ inr (inl (rw (prebuilt, latest) refl))
    | inr given ↦
        let plain : matches_ref version ≡ true = ground (arith, h, prebuilt, given) in
        inr (inr (version, matches_ref-safe version plain, rw (prebuilt, given) refl))
  ]
]

abbrev starts_with_h : String → Bool
starts_with_h String.[] = false
starts_with_h (String.◌∷◌ c s) = code c == b'h'

asset_url-starts : (opts : Options) (arch : String) → starts_with_h (asset_url opts arch) ≡ true
unfolding asset_url
asset_url-starts opts arch = ap starts_with_h (
    cons "h" "ttps://github.com/"
      (repo_or_default opts.repo <> (release_dir opts.version <> ("rucher_linux_" <> arch))))

-- The URL is not the name of a shell.
asset_url-word : (opts : Options) (arch : String) → contains (asset_url opts arch) shells ≡ false
asset_url-word opts arch = elim (Bool-cases (contains (asset_url opts arch) shells)) [
  | inr other ↦ other
  | inl shell ↦
      let low =
        All_contains (λ word. starts_with_h word ≡ false) shells (asset_url opts arch)
          (refl, (refl, (refl, (refl, tt)))) shell in
      absurd (cc (low, asset_url-starts opts arch))
]

-- What is harmless in the hands of a shell: each word is made of plain characters, and what a shell reads
-- is the script.
pub record IsSafe (c : Call) : Type 0 where
  pub words : all shell_safe c.argv ≡ true
  pub script : is_shell c.argv ≡ true → IsScript c.stdin

-- The step adds only calls that are safe.
record Safely {A : Type 0} (m : Steps A) : Type 0 where
  at : (calls : List Call) → All IsSafe calls → All IsSafe (m calls).1

module _ {A B : Type 0} where
  resume-Safely :
      (r : Early A) (f : A → Steps B) (calls : List Call)
      → ((a : A) → Safely (f a))
      → All IsSafe calls
      → All IsSafe (resume r f calls).1
  resume-Safely (stop row) f calls h safe = safe
  resume-Safely (go a) f calls h safe = (h a).at calls safe

  Safely-bind :
      (m : Steps A) (f : A → Steps B) → Safely m → ((a : A) → Safely (f a)) → Safely (m >>= f)
  Safely-bind m f hm hf = record {
    at = λ calls safe. resume-Safely (m calls).0 f (m calls).1 hf (hm.at calls safe);
  }

Safely-pass : {A : Type 0} (a : A) → Safely (pass a)
Safely-pass a = record { at = λ calls safe. safe }

Safely-if :
    {A : Type 0} (b : Bool) (m n : Steps A) → Safely m → Safely n → Safely (if b then m else n)
Safely-if true m n hm hn = hm
Safely-if false m n hm hn = hn

Safely-fail_if : (b : Bool) (row : Row) (msg : String) → Safely (fail_if b row msg)
Safely-fail_if b row msg = record { at = λ calls safe. safe }

-- Behind a check the rest may rely on it.
Safely-checked :
    {B : Type 0} (b : Bool) (row : Row) (msg : String) (n : Steps B)
    → (b ≡ false → Safely n)
    → Safely (fail_if b row msg >> n)
Safely-checked true row msg n h = record { at = λ calls safe. safe }
Safely-checked false row msg n h = record { at = (h refl).at }

Safely-attempt : {A : Type 0} (row : Row) (r : Result A) → Safely (attempt row r)
unfolding attempt
Safely-attempt row (ok a) = record { at = λ calls safe. safe }
Safely-attempt row (err e) = record { at = λ calls safe. safe }

Safely-fail_on : (row : Row) (m : Option String) → Safely (fail_on row m)
unfolding fail_on
Safely-fail_on row none = record { at = λ calls safe. safe }
Safely-fail_on row (some msg) = record { at = λ calls safe. safe }

ruleset safely_rules =
    (Safely-bind, Safely-pass, Safely-if, Safely-fail_if, Safely-attempt, Safely-fail_on)

arch-safe : (arch : String) → (arch == "amd64" || arch == "arm64") ≡ true → shell_safe arch ≡ true
unfolding shell_safe
arch-safe arch h = elim (Bool-cases (arch == "amd64")) [
  | inl e ↦ rw ((eq_iff arch "amd64").0 e) refl
  | inr e ↦ rw ((eq_iff arch "arm64").0 (ground arith)) refl
]

module _ (fleet : Fleet) where
  ssh-Safely :
      (t : Target) (argv : List String) (stdin : Option String)
      → all shell_safe argv ≡ true
      → (is_shell argv ≡ true → IsScript stdin)
      → Safely (ssh fleet t argv stdin)
  unfolding ssh
  ssh-Safely t argv stdin w s = record {
    at = λ calls safe. (record { words = w; script = s }, safe);
  }

  step-Safely :
      (row : Row) (t : Target) (argv : List String) (stdin : Option String) (what : String)
      → all shell_safe argv ≡ true
      → (is_shell argv ≡ true → IsScript stdin)
      → Safely (step fleet row t argv stdin what)
  unfolding step
  step-Safely row t argv stdin what w s = search (safely_rules, ssh-Safely)

  ask-Safely :
      (row : Row) (t : Target) (argv : List String) (what : String)
      → all shell_safe argv ≡ true
      → is_shell argv ≡ false
      → Safely (ask fleet row t argv what)
  unfolding ask
  ask-Safely row t argv what w s =
      Safely-bind (ssh fleet t argv none) _ (ssh-Safely t argv none w (λ e. absurd (cc (e, s))))
        (λ a.
          Safely-bind (fail_on row (answer_error what a)) _
            (Safely-fail_on row (answer_error what a)) (λ u. Safely-pass (trim_space a.stdout)))

  provision-Safely :
      (row : Row) (t : Target) (source version : String)
      → Safely (provision fleet row t source version)
  unfolding provision shell_safe
  provision-Safely row t source version = Safely-checked _ row _ _ (λ checked.
      step-Safely row t ("sudo" ∷ "sh" ∷ "-s" ∷ []) (some (provision_script source version))
        "provision base platform" refl (λ e. provision_script-IsScript source version checked))

  upload-Safely : (row : Row) (t : Target) (binary : String) → Safely (upload fleet row t binary)
  unfolding upload shell_safe
  upload-Safely row t binary =
      step-Safely row t _ (some binary) "stage binary" refl (λ e. absurd (cc e))

  fetch-Safely :
      (row : Row) (t : Target) (opts : Options)
      → shell_safe (asset_url opts row.arch) ≡ true
      → Safely (fetch fleet row t opts)
  unfolding fetch shell_safe
  fetch-Safely row t opts url =
      Safely-bind
        (step fleet row t
          ("sudo" ∷ "curl" ∷ "-fsSL" ∷ asset_url opts row.arch ∷ "-o" ∷ stage_path ∷ []) none
          "download binary")
        _
        (step-Safely row t
          ("sudo" ∷ "curl" ∷ "-fsSL" ∷ asset_url opts row.arch ∷ "-o" ∷ stage_path ∷ []) none
          "download binary" (rw url refl)
          (λ e. absurd (cc (rw (asset_url-word opts row.arch) at e))))
        (λ u.
          step-Safely row t ("sudo" ∷ "chmod" ∷ "0755" ∷ stage_path ∷ []) none "chmod binary" refl
            (λ e. absurd (cc e)))

  download-Safely : (row : Row) (t : Target) (opts : Options) → Safely (download fleet row t opts)
  unfolding download shell_safe
  download-Safely row t opts =
      Safely-checked (not (row.arch == "amd64" || row.arch == "arm64")) row _ _ (λ a.
        Safely-checked (not (opts.version == "" || matches_ref opts.version)) row _ _ (λ v.
          Safely-checked (not (opts.repo == "" || matches_repo opts.repo)) row _ _ (λ r.
            fetch-Safely row t opts (
              asset_url-safe opts row.arch (arch-safe row.arch (ground arith)) (ground arith)
                (ground arith)))))

  deliver-Safely :
      (row : Row) (t : Target) (opts : Options) (b : Option String)
      → Safely (deliver fleet row t opts b)
  unfolding deliver
  deliver-Safely row t opts none = download-Safely row t opts
  deliver-Safely row t opts (some binary) = upload-Safely row t binary

  verify-Safely : (row : Row) (t : Target) → Safely (verify fleet row t)
  unfolding verify shell_safe
  verify-Safely row t =
      Safely-bind (ssh fleet t ("test" ∷ "-x" ∷ install_path ∷ []) none) _
        (ssh-Safely t ("test" ∷ "-x" ∷ install_path ∷ []) none refl (λ e. absurd (cc e)))
        (λ a. Safely-fail_if (failed a) row _)

  write_config-Safely :
      (row : Row) (t : Target) (body : String)
      → Safely (
          step fleet row t
            ("sudo" ∷ "install" ∷ "-D" ∷ "-m0600" ∷ "/dev/stdin" ∷ "/etc/rucher/agent.yml" ∷ [])
            (some body)
            "write agent.yml")
  unfolding shell_safe
  write_config-Safely row t body =
      step-Safely row t _ (some body) "write agent.yml" refl (λ e. absurd (cc e))

  install_agent-Safely :
      (row : Row) (t : Target)
      → Safely (
          ask fleet row t
            ("sudo" ∷ install_path ∷ "node" ∷ "agent" ∷ "install" ∷ [])
            "node agent install")
  unfolding shell_safe
  install_agent-Safely row t = ask-Safely row t _ "node agent install" refl refl

  bootstrap_agent-Safely :
      (row : Row) (t : Target) (name : String) (opts : Options)
      → Safely (bootstrap_agent fleet row t name opts)
  unfolding bootstrap_agent
  bootstrap_agent-Safely row t name opts =
      search (safely_rules, write_config-Safely, install_agent-Safely) depth 12

  enroll-Safely :
      (row : Row) (t : Target) (name : String) (opts : Options)
      → Safely (enroll fleet row t name opts)
  unfolding enroll shell_safe
  enroll-Safely row t name opts =
      Safely-bind
        (ask fleet row t ("sudo" ∷ install_path ∷ "node" ∷ "key" ∷ "init" ∷ []) "node key init") _
        (ask-Safely row t _ "node key init" refl refl)
        (λ r. search (safely_rules, bootstrap_agent-Safely) depth 12)

  move-Safely :
      (row : Row) (t : Target)
      → Safely (
          step fleet row t
            ("sudo" ∷ "mv" ∷ "-f" ∷ stage_path ∷ install_path ∷ [])
            none
            "install binary")
  unfolding shell_safe
  move-Safely row t = step-Safely row t _ none "install binary" refl (λ e. absurd (cc e))

  arch_known-Safely :
      (row : Row) (t : Target) (name : String) (cfg : NodeConfig) (opts : Options)
      → Safely (deploy_known fleet row t name cfg opts)
  unfolding deploy_known
  arch_known-Safely row t name cfg opts =
      search
        (safely_rules, provision-Safely, deliver-Safely, move-Safely, verify-Safely, enroll-Safely)
        depth 14

  deploy_to-Safely :
      (row : Row) (t : Target) (name : String) (cfg : NodeConfig) (opts : Options)
      → Safely (deploy_to fleet row t name cfg opts)
  unfolding deploy_to shell_safe
  deploy_to-Safely row t name cfg opts =
      Safely-bind
        (ask fleet row t ("dpkg" ∷ "--print-architecture" ∷ []) "dpkg --print-architecture") _
        (ask-Safely row t _ "dpkg --print-architecture" refl refl)
        (λ arch. arch_known-Safely (record row { arch = arch }) t name cfg opts)

  deploy_steps-Safely : (name : String) (opts : Options) → Safely (deploy_steps fleet name opts)
  unfolding deploy_steps
  deploy_steps-Safely name opts = search (safely_rules, deploy_to-Safely) depth 12

  -- Whatever the options, the configuration of the node and the answers of the node are, deploying to it
  -- sends only commands whose words a shell takes as they are, and a command with the name of a shell among
  -- its words reads a script of fixed text, or one where only a version stands in a fixed text, which has
  -- nothing but plain characters.
  pub deploy_one-IsSafe :
      (name : String) (opts : Options) (calls : List Call)
      → All IsSafe calls
      → All IsSafe (deploy_one fleet name opts calls).1
  unfolding deploy_one
  deploy_one-IsSafe name opts calls safe = (deploy_steps-Safely name opts).at calls safe
