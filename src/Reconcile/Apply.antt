-- ===== src/Reconcile/Apply.antt =====
-- `Apply` of internal/reconcile/reconcile.go. An error ends the run where the Go code returns it; the
-- plan that the code returns beside an error is left out.
use rucher.Reconcile.Decide.{
  plan_for, retain_failed, writes_systemd_unit, created_secrets, user_write_error,
}
use rucher.Base.{
  ◌==◌, ◌||◌, ◌<>◌, ◌∷◌, ◌++◌, not, Option, none, some, String, List, [], if◌then◌else◌, string_eq,
  nat_eq, contains,
}
use rucher.Base.Int.{ℤ, int_eq}
use rucher.Base.Dict.{Dict, insert, get, lookup}
use rucher.Base.Path.{join_path}
use rucher.Base.Result.{Result, ok, err}
use rucher.Manifest.{Login, Resources}
use rucher.Fileset.{is_systemd_unit}
use rucher.Cadre.{File, Cadre}
use rucher.State.{State, empty}
use rucher.Plan.{set_of, Plan, is_empty_plan}
use rucher.Prune.{prune_files}
use rucher.Provision.{ensure_user, user_name, home_dir, base_dir, apply_resources}
use rucher.Ops.{
  Ops, stop, disable_now, secret_create, secret_remove, login, daemon_reload, start, restart,
  enable_now, restart_unit,
}
use rucher.Secrets.{decrypt}
use rucher.Reconcile.NextState.{Codec, next_state, registries_hash}
use rucher.Host.{
  World, user, stored, unreadable, Env, Exec, pure, throw, lift, ◌>>=◌, ◌>>◌, each, failures, run,
}

module _ (env : Env) where
  unfoldable pub codec : Codec
  codec = record { hash = env.hash; marshal = env.marshal }

  unfoldable pub state_base_dir : String
  state_base_dir = if env.state_dir == "" then base_dir env else env.state_dir

  unfoldable pub state_path : String → String
  state_path name = join_path (state_base_dir ∷ "state" ∷ (name <> ".json") ∷ [])

  unfoldable pub systemd_dir : String → String
  systemd_dir name = home_dir env name <> "/.config/containers/systemd"

  unfoldable pub user_unit_dir : String → String
  user_unit_dir name = home_dir env name <> "/.config/systemd/user"

  unfoldable pub identity_path : String → String
  identity_path name = home_dir env name <> "/.config/rucher/age/identity.txt"

  -- state.Load: no file is an empty state
  unfoldable pub state_at : String → World → Result State
  state_at path w = elim (lookup path w.states) [
    | none ↦ ok empty
    | some file ↦ elim file [ stored s ↦ ok s | unreadable e ↦ err e ]
  ]

  unfoldable pub load_state : String → Exec State
  load_state path w = (state_at path w, w)

  -- state.Save: the rename at the end makes the write all or nothing
  unfoldable pub save_state : String → State → Exec (Unit {0})
  save_state path s w = elim (env.save_fault w.trace) [
    | some e ↦ (err e, w)
    | none ↦ (ok tt, record w { states = insert path (stored s) w.states })
  ]

  unfoldable pub user_write : Ops → List String → Option String → Exec (Unit {0})
  user_write o argv stdin = do
    a ← run env (user o.name o.uid argv stdin)
    lift (user_write_error a argv)

  -- the secret values, and the hashes of those to create
  unfoldable pub secrets_at : Cadre → World → Result (Dict String × Dict String)
  secrets_at c w =
      if c.sops_path == ""
      then ok ([], [])
      else created_secrets env.hash c (decrypt env (identity_path c.name) c.sops_path w)

  unfoldable pub load_secrets : Cadre → Exec (Dict String × Dict String)
  load_secrets c w = (secrets_at c w, w)

  -- steps 1 and 2: the limits, then the stops, whose failures are collected
  unfoldable pub apply_limits : ℤ → Option Resources → Exec (Unit {0})
  apply_limits uid none = pure tt
  apply_limits uid (some r) = apply_resources env uid r

  unfoldable pub stop_removed : Ops → Plan → Exec (List String)
  stop_removed o p w =
      let (bad, w') = failures (stop env o) p.stop_units w in
      let (bad', w'') = failures (disable_now env o) p.disable_units w' in
      (ok (set_of (bad ++ bad')), w'')

  -- step 3: the files
  unfoldable pub write_file : Ops → String → File → Exec (Unit {0})
  write_file o name f =
      user_write o
        ("tee"
          ∷ join_path
              ((if f.is_systemd_unit then user_unit_dir name else systemd_dir name) ∷ f.name ∷ [])
          ∷ [])
        (some f.content)

  unfoldable pub remove_file : Ops → String → List String → String → Exec (Unit {0})
  remove_file o name stop_failed file =
      if contains file stop_failed
      then pure tt
      else user_write o
          ("rm"
            ∷ "-f"
            ∷ join_path (
                (if is_systemd_unit file then user_unit_dir name else systemd_dir name) ∷ file ∷ [])
            ∷ [])
          none

  unfoldable pub make_unit_dir : Ops → String → Plan → Exec (Unit {0})
  make_unit_dir o name p =
      if writes_systemd_unit p.write_files
      then user_write o ("mkdir" ∷ "-p" ∷ user_unit_dir name ∷ []) none
      else pure tt

  unfoldable pub apply_files : Ops → String → Plan → List String → Exec (Unit {0})
  apply_files o name p stop_failed = do
    user_write o ("mkdir" ∷ "-p" ∷ systemd_dir name ∷ []) none
    make_unit_dir o name p
    each (write_file o name) p.write_files
    each (remove_file o name stop_failed) p.remove_files

  -- step 5: the registry logins
  unfoldable pub log_in_with : Ops → String → Login → Option String → Exec (Unit {0})
  log_in_with o name l none = throw (
      "cadre "
      <> (name
          <> (": registry "
              <> (l.registry <> (": passwordKey \"" <> (l.password_key <> "\" not in secrets"))))))
  log_in_with o name l (some password) = login env o l.registry l.username password l.insecure

  unfoldable pub log_in : Ops → String → Dict String → Login → Exec (Unit {0})
  log_in o name values l = log_in_with o name l (lookup l.password_key values)

  unfoldable pub apply_logins : Ops → Cadre → Dict String → Plan → State → Exec (Unit {0})
  apply_logins o c values p prior =
      let logins = c.manifest.registries.login in
      if not (is_empty_plan p) || not (registries_hash codec logins values == prior.registries_hash)
      then each (log_in o c.name values) logins
      else pure tt

  -- step 6: the reload, then the units
  unfoldable pub apply_units : Ops → Plan → Exec (Unit {0})
  apply_units o p = do
    (if p.daemon_reload then daemon_reload env o else pure tt)
    each (start env o) p.start_units
    each (restart env o) p.restart_units
    each (enable_now env o) p.enable_units
    each (restart_unit env o) p.restart_systemd_units

  -- Steps 3 to 6, when it is known which stops failed.
  unfoldable pub execute_rest :
      Cadre → Ops → Dict String → State → Plan → List String → Exec (List String)
  execute_rest c o values prior p bad = do
    apply_files o c.name p bad
    each (λ key. secret_create env o key (get values key)) p.create_secrets
    each (secret_remove env o) p.remove_secrets
    apply_logins o c values p prior
    apply_units o p
    pure bad

  -- Steps 1 to 6 on the host; the result is the list of the units whose stop failed.
  unfoldable pub execute : Cadre → ℤ → Dict String → State → Plan → Exec (List String)
  execute c uid values prior p = do
    let o : Ops = record { name = user_name c.name; uid = uid }
    apply_limits uid p.resources
    bad ← stop_removed o p
    execute_rest c o values prior p bad

  -- the cadre with the synthesized prune units
  unfoldable pub with_prune : Cadre → Cadre
  with_prune c = record c { files = c.files ++ prune_files env.hash c.manifest.prune }

  -- step 7, behind the steps on the host
  unfoldable pub save_next :
      Cadre → ℤ → Dict String × Dict String → State → Plan → List String → Exec Plan
  save_next c uid (values, secret_hashes) prior p bad =
      save_state (state_path c.name)
        (retain_failed prior bad (next_state codec c uid secret_hashes values))
      >> pure p

  unfoldable pub apply_from : Cadre → ℤ → Dict String × Dict String → State → Exec Plan
  apply_from c uid secrets prior =
      let p = plan_for c secrets.1 uid prior in
      execute c uid secrets.0 prior p >>= save_next c uid secrets prior p

  unfoldable pub apply_with : Cadre → ℤ → Dict String × Dict String → Exec Plan
  apply_with c uid secrets = load_state (state_path c.name) >>= apply_from c uid secrets

  unfoldable pub apply_as : Cadre → ℤ → Exec Plan
  apply_as c uid = load_secrets c >>= apply_with c uid

  unfoldable pub apply : Cadre → Exec Plan
  apply c = ensure_user env c.name >>= apply_as (with_prune c)
