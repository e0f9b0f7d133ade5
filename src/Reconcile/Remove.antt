-- ===== src/Reconcile/Remove.antt =====
-- `Remove` and `Status` of internal/reconcile/reconcile.go. Most commands of `Remove` are best-effort:
-- their results are dropped.
use rucher.Base.{
  ◌==◌, ◌<>◌, ◌∷◌, Bool, not, none, some, String, List, [], if◌then◌else◌, string_eq, nat_eq,
}
use rucher.Base.Int.{ℤ, pos, int_eq}
use rucher.Base.Decimal.{itoa}
use rucher.Base.Dict.{Dict}
use rucher.Base.Result.{Result, ok, err, with_context}
use rucher.State.{State}
use rucher.Provision.{valid_name, user_name}
use rucher.Ops.{Ops, stop, disable_now, daemon_reload, stop_all_user_services, kill_pause}
use rucher.Host.{
  root, user, Answer, StateFile, Env, Exec, pure, throw_if, lift, ◌>>=◌, ◌>>◌, each, run, failed,
}
use rucher.Reconcile.Apply.{state_path, state_at, systemd_dir, user_unit_dir}

-- a step whose error is dropped
abbrev pub best_effort : Exec (Unit {0}) → Exec (Unit {0})
best_effort m w = (ok tt, (m w).1)

-- the entries of the other keys
abbrev pub without : String → Dict StateFile → Dict StateFile
without path [] = []
without path ((k, file) ∷ states) =
    let rest = without path states in if k == path then rest else (k, file) ∷ rest

abbrev pub userdel_error : String → Answer → Result (Unit {0})
userdel_error name a = elim a.fault [
  | some e ↦ err e
  | none ↦ if a.code == pos 0 then ok tt else err ("userdel " <> (name <> (": " <> a.stderr)))
]

module _ (env : Env) where
  unfoldable pub try_root : List String → Exec (Unit {0})
  try_root argv w = (ok tt, (run env (root argv none) w).1)

  unfoldable pub try_user : Ops → List String → Exec (Unit {0})
  try_user o argv w = (ok tt, (run env (user o.name o.uid argv none) w).1)

  -- `rm -f` by root: when it succeeds, the state file is gone
  unfoldable pub drop_state : String → Exec (Unit {0})
  drop_state path w =
      let (r, w') = run env (root ("rm" ∷ "-f" ∷ path ∷ []) none) w in
      (
        ok tt,
        elim r [
          | err e ↦ w'
          | ok a ↦ if failed a then w' else record w' { states = without path w'.states }
        ],
      )

  -- the workloads and their unit files
  unfoldable pub stop_managed : String → State → Exec (Unit {0})
  stop_managed name prior = do
    let o : Ops = record { name = user_name name; uid = prior.uid }
    each (λ u. best_effort (stop env o u)) prior.units
    each (λ u. best_effort (disable_now env o u)) prior.systemd_units
    try_user o ("rm" ∷ "-rf" ∷ systemd_dir env name ∷ [])
    try_user o ("rm" ∷ "-rf" ∷ user_unit_dir env name ∷ [])
    best_effort (daemon_reload env o)

  unfoldable pub unmanage : String → State → Exec (Unit {0})
  unmanage name prior = if prior.uid == pos 0 then pure tt else stop_managed name prior

  unfoldable pub stop_manager : String → ℤ → Exec (Unit {0})
  stop_manager name uid = do
    let o : Ops = record { name = user_name name; uid = uid }
    best_effort (stop_all_user_services env o)
    kill_pause env o
    try_root ("systemctl" ∷ "stop" ∷ ("user@" <> (itoa uid <> ".service")) ∷ [])

  unfoldable pub delete_user : String → Exec (Unit {0})
  delete_user name = do
    a ← run env (root ("userdel" ∷ "-r" ∷ name ∷ []) none)
    lift (userdel_error name a)

  unfoldable pub drop_slice : ℤ → Exec (Unit {0})
  drop_slice uid = do
    try_root ("rm" ∷ "-rf" ∷ ("/etc/systemd/system/user-" <> (itoa uid <> ".slice.d")) ∷ [])
    try_root ("systemctl" ∷ "daemon-reload" ∷ [])

  -- the teardown of the OS user
  unfoldable pub purge_user : String → State → Exec (Unit {0})
  purge_user name prior = do
    let account = user_name name
    try_root ("loginctl" ∷ "disable-linger" ∷ account ∷ [])
    (if prior.uid == pos 0 then pure tt else stop_manager name prior.uid)
    try_root ("loginctl" ∷ "terminate-user" ∷ account ∷ [])
    try_root (
        "sh" ∷ "-c"
        ∷ "for i in $(seq 1 100); do pgrep -u \"$1\" >/dev/null 2>&1 || exit 0; sleep 0.1; done"
        ∷ "_" ∷ account ∷ [])
    try_root ("pkill" ∷ "-KILL" ∷ "-u" ∷ account ∷ [])
    try_root ("sleep" ∷ "1" ∷ [])
    delete_user account
    (if prior.uid == pos 0 then pure tt else drop_slice prior.uid)

  unfoldable pub remove_loaded : String → Bool → State → Exec (Unit {0})
  remove_loaded name purge prior = do
    unmanage name prior
    drop_state (state_path env name)
    (if purge then purge_user name prior else pure tt)

  unfoldable pub prior_state : String → Exec State
  prior_state name w = (
    with_context ("cadre " <> (name <> ": cannot load state (corrupted?)"))
        (state_at env (state_path env name) w),
    w,
  )

  unfoldable pub remove : String → Bool → Exec (Unit {0})
  remove name purge =
      throw_if (not (valid_name name)) ("invalid cadre name \"" <> (name <> "\""))
      >> (prior_state name >>= remove_loaded name purge)
