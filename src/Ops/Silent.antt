-- ===== src/Ops/Silent.antt =====
-- The operations of a cadre user leave the state files alone.
use rucher.Base.{◌∙◌, Bool, Option, String, List, string_eq, nat_eq}
use rucher.Host.{Env}
use rucher.Host.Quiet.{Quiet, quiet_rules}
use rucher.Ops.{
  Ops, as_user, wrapped, sc, daemon_reload, start, restart, stop, enable_now, restart_unit,
  disable_now, secret_remove, secret_create, login,
}

module _ (env : Env) (o : Ops) where
  as_user-Quiet : (argv : List String) (i : Option String) → Quiet (as_user env o argv i)
  unfolding as_user
  as_user-Quiet argv i = search quiet_rules

  wrapped-Quiet : (argv : List String) (i : Option String) → Quiet (wrapped env o argv i)
  unfolding wrapped
  wrapped-Quiet argv i = search (quiet_rules, as_user-Quiet)

  sc-Quiet : (args : List String) → Quiet (sc env o args)
  unfolding sc
  sc-Quiet args = wrapped-Quiet _ _

  pub daemon_reload-Quiet : Quiet (daemon_reload env o)
  unfolding daemon_reload
  daemon_reload-Quiet = sc-Quiet _

  pub start-Quiet : (u : String) → Quiet (start env o u)
  unfolding start
  start-Quiet u = sc-Quiet _

  pub restart-Quiet : (u : String) → Quiet (restart env o u)
  unfolding restart
  restart-Quiet u = sc-Quiet _

  pub stop-Quiet : (u : String) → Quiet (stop env o u)
  unfolding stop
  stop-Quiet u = sc-Quiet _

  pub enable_now-Quiet : (u : String) → Quiet (enable_now env o u)
  unfolding enable_now
  enable_now-Quiet u = sc-Quiet _

  pub restart_unit-Quiet : (u : String) → Quiet (restart_unit env o u)
  unfolding restart_unit
  restart_unit-Quiet u = sc-Quiet _

  pub disable_now-Quiet : (u : String) → Quiet (disable_now env o u)
  unfolding disable_now
  disable_now-Quiet u = sc-Quiet _

  pub secret_remove-Quiet : (name : String) → Quiet (secret_remove env o name)
  unfolding secret_remove
  secret_remove-Quiet name = search (quiet_rules, as_user-Quiet)

  pub secret_create-Quiet : (name value : String) → Quiet (secret_create env o name value)
  unfolding secret_create
  secret_create-Quiet name value = record {
    at = λ w.
        (wrapped-Quiet _ _).at (secret_remove env o name w).1 ∙ (secret_remove-Quiet name).at w;
  }

  pub login-Quiet :
      (reg account password : String) (insecure : Bool)
      → Quiet (login env o reg account password insecure)
  unfolding login
  login-Quiet reg account password insecure = wrapped-Quiet _ _

  pub ruleset ops_rules = (
    daemon_reload-Quiet, start-Quiet, restart-Quiet, stop-Quiet, enable_now-Quiet,
    restart_unit-Quiet, disable_now-Quiet, secret_remove-Quiet, secret_create-Quiet, login-Quiet,
  )
