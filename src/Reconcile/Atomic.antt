-- ===== src/Reconcile/Atomic.antt =====
-- Which steps of `Apply` touch a state file.
use rucher.Base.{◌≡◌, ◌∙◌, refl, Option, none, some, String, List, arith, string_eq, nat_eq}
use rucher.Base.Int.{ℤ}
use rucher.Base.Dict.{Dict}
use rucher.Base.Result.{err}
use rucher.Manifest.{Login, Resources}
use rucher.Cadre.{File, Cadre}
use rucher.State.{State}
use rucher.Plan.{Plan}
use rucher.Ops.{Ops, stop, disable_now}
use rucher.Ops.Silent.{ops_rules, stop-Quiet, disable_now-Quiet, login-Quiet}
use rucher.Provision.Silent.{ensure_user-Quiet, apply_resources-Quiet}
use rucher.Host.{World, Env}
use rucher.Host.Quiet.{Atomic-bind, Atomic, Quiet, quiet_rules, failures-states}
use rucher.Reconcile.Apply.{
  execute_rest, with_prune, apply_from, apply_with, apply_as, save_next, log_in_with, user_write,
  load_secrets, load_state, save_state, apply_limits, stop_removed, write_file, remove_file,
  make_unit_dir, apply_files, log_in, apply_logins, apply_units, execute, apply,
}

module _ (env : Env) where
  user_write-Quiet :
      (o : Ops) (argv : List String) (i : Option String) → Quiet (user_write env o argv i)
  unfolding user_write
  user_write-Quiet o argv i = search quiet_rules

  load_secrets-Quiet : (c : Cadre) → Quiet (load_secrets env c)
  unfolding load_secrets
  load_secrets-Quiet c = record { at = λ w. refl }

  load_state-Quiet : (path : String) → Quiet (load_state env path)
  unfolding load_state
  load_state-Quiet path = record { at = λ w. refl }

  apply_limits-Quiet : (uid : ℤ) (r : Option Resources) → Quiet (apply_limits env uid r)
  unfolding apply_limits
  apply_limits-Quiet uid none = search quiet_rules
  apply_limits-Quiet uid (some r) = apply_resources-Quiet env uid r

  stop_removed-Quiet : (o : Ops) (p : Plan) → Quiet (stop_removed env o p)
  unfolding stop_removed
  stop_removed-Quiet o p = record {
    at = λ w.
        failures-states (disable_now env o) (disable_now-Quiet env o) p.disable_units _
        ∙ failures-states (stop env o) (stop-Quiet env o) p.stop_units w;
  }

  write_file-Quiet : (o : Ops) (name : String) (f : File) → Quiet (write_file env o name f)
  unfolding write_file
  write_file-Quiet o name f = user_write-Quiet o _ _

  remove_file-Quiet :
      (o : Ops) (name : String) (bad : List String) (file : String)
      → Quiet (remove_file env o name bad file)
  unfolding remove_file
  remove_file-Quiet o name bad file = search (quiet_rules, user_write-Quiet)

  make_unit_dir-Quiet : (o : Ops) (name : String) (p : Plan) → Quiet (make_unit_dir env o name p)
  unfolding make_unit_dir
  make_unit_dir-Quiet o name p = search (quiet_rules, user_write-Quiet)

  apply_files-Quiet :
      (o : Ops) (name : String) (p : Plan) (bad : List String)
      → Quiet (apply_files env o name p bad)
  unfolding apply_files
  apply_files-Quiet o name p bad =
      search
        (quiet_rules, user_write-Quiet, make_unit_dir-Quiet, write_file-Quiet, remove_file-Quiet)
        depth 8

  log_in_with-Quiet :
      (o : Ops) (name : String) (l : Login) (password : Option String)
      → Quiet (log_in_with env o name l password)
  unfolding log_in_with
  log_in_with-Quiet o name l none = search quiet_rules
  log_in_with-Quiet o name l (some password) = login-Quiet env o _ _ _ _

  log_in-Quiet :
      (o : Ops) (name : String) (values : Dict String) (l : Login)
      → Quiet (log_in env o name values l)
  unfolding log_in
  log_in-Quiet o name values l = log_in_with-Quiet o name l _

  apply_logins-Quiet :
      (o : Ops) (c : Cadre) (values : Dict String) (p : Plan) (prior : State)
      → Quiet (apply_logins env o c values p prior)
  unfolding apply_logins
  apply_logins-Quiet o c values p prior = search (quiet_rules, log_in-Quiet)

  apply_units-Quiet : (o : Ops) (p : Plan) → Quiet (apply_units env o p)
  unfolding apply_units
  apply_units-Quiet o p = search (quiet_rules, ops_rules) depth 9

  execute_rest-Quiet :
      (c : Cadre) (o : Ops) (values : Dict String) (prior : State) (p : Plan) (bad : List String)
      → Quiet (execute_rest env c o values prior p bad)
  unfolding execute_rest
  execute_rest-Quiet c o values prior p bad =
      search (quiet_rules, ops_rules, apply_files-Quiet, apply_logins-Quiet, apply_units-Quiet)
        depth 9

  execute-Quiet :
      (c : Cadre) (uid : ℤ) (values : Dict String) (prior : State) (p : Plan)
      → Quiet (execute env c uid values prior p)
  unfolding execute
  execute-Quiet c uid values prior p =
      search (quiet_rules, apply_limits-Quiet, stop_removed-Quiet, execute_rest-Quiet)

  save_next-Atomic :
      (c : Cadre) (uid : ℤ) (secrets : Dict String × Dict String) (prior : State) (p : Plan)
      (bad : List String)
      → Atomic (save_next env c uid secrets prior p bad)
  unfolding save_next save_state
  save_next-Atomic c uid secrets prior p bad = record { at = λ w e x. ground arith }

  apply-Atomic : (c : Cadre) → Atomic (apply env c)
  unfolding apply apply_as apply_with apply_from
  apply-Atomic c = Atomic-bind _ _ (ensure_user-Quiet env c.name) λ uid.
      Atomic-bind _ _ (load_secrets-Quiet (with_prune env c)) λ secrets.
        Atomic-bind _ _ (load_state-Quiet _) λ prior.
          Atomic-bind _ _ (execute-Quiet (with_prune env c) uid secrets.0 prior _)
            λ bad. save_next-Atomic (with_prune env c) uid secrets prior _ bad

  -- An apply that fails, in whichever step, leaves every state file as it was.
  pub apply_failed-states :
      (c : Cadre) (w : World) (e : String)
      → (apply env c w).0 ≡ err e
      → (apply env c w).1.states ≡ w.states
  apply_failed-states c w e h = (apply-Atomic c).at w e h
