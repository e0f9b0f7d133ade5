-- ===== src/Ops.antt =====
-- internal/ops/ops.go: the systemd, podman and secret operations of one cadre user.
pub mod Silent
use rucher.Base.Int.{ℤ, pos, int_eq}
use rucher.Base.Decimal.{itoa}
use rucher.Base.Text.{join, trim_space, contains_text}
use rucher.Base.Result.{Result, ok, err}
use rucher.Fileset.{unit_service}
use rucher.Host.{user, Answer, Env, Exec, run, pure, lift, ◌>>=◌}
use rucher.Base.{
  ◌==◌, ◌&&◌, ◌<>◌, ◌∷◌, Bool, not, Option, none, some, String, List, [], if◌then◌else◌, string_eq,
  nat_eq,
}

-- Ops{R, User, UID}; the runner is the environment
pub record Ops : Type 0 where
  pub name : String
  pub uid : ℤ

-- `wrap`: a transport error, or a code other than 0
unfoldable pub wrap : Answer → List String → Result (Unit {0})
wrap a [] = ok tt
wrap a (cmd ∷ args) = elim a.fault [
  | some e ↦ err (cmd <> (": " <> e))
  | none ↦
      if a.code == pos 0
      then ok tt
      else err (join " " (cmd ∷ args) <> (" exited " <> (itoa a.code <> (": " <> a.stderr))))
]

-- an absent secret is no error
unfoldable pub secret_removed : String → Answer → Result (Unit {0})
secret_removed name a = elim a.fault [
  | some e ↦ err ("secret rm " <> (name <> (": " <> e)))
  | none ↦
      if not (a.code == pos 0)
        && not (contains_text a.stderr "no such secret")
        && not (contains_text a.stderr "not found")
      then err
          ("secret rm " <> (name <> (" exited " <> (itoa a.code <> (": " <> trim_space a.stderr)))))
      else ok tt
]

module _ (env : Env) (o : Ops) where
  unfoldable pub as_user : List String → Option String → Exec Answer
  as_user argv stdin = run env (user o.name o.uid argv stdin)

  -- a command whose error is that of `wrap`
  unfoldable pub wrapped : List String → Option String → Exec (Unit {0})
  wrapped argv stdin = do a ← as_user argv stdin; lift (wrap a argv)

  unfoldable pub sc : List String → Exec (Unit {0})
  sc args = wrapped ("systemctl" ∷ "--user" ∷ args) none

  unfoldable pub daemon_reload : Exec (Unit {0})
  daemon_reload = sc ("daemon-reload" ∷ [])

  unfoldable pub start : String → Exec (Unit {0})
  start u = sc ("start" ∷ unit_service u ∷ [])

  unfoldable pub restart : String → Exec (Unit {0})
  restart u = sc ("restart" ∷ unit_service u ∷ [])

  unfoldable pub stop : String → Exec (Unit {0})
  stop u = sc ("stop" ∷ unit_service u ∷ [])

  unfoldable pub enable_now : String → Exec (Unit {0})
  enable_now u = sc ("enable" ∷ "--now" ∷ u ∷ [])

  unfoldable pub restart_unit : String → Exec (Unit {0})
  restart_unit u = sc ("restart" ∷ u ∷ [])

  unfoldable pub disable_now : String → Exec (Unit {0})
  disable_now u = sc ("disable" ∷ "--now" ∷ u ∷ [])

  unfoldable pub stop_all_user_services : Exec (Unit {0})
  stop_all_user_services = sc ("stop" ∷ "*.service" ∷ [])

  unfoldable pub kill_pause : Exec (Unit {0})
  kill_pause = do _ ← as_user ("podman" ∷ "system" ∷ "migrate" ∷ []) none; pure tt

  unfoldable pub secret_remove : String → Exec (Unit {0})
  secret_remove name = do
    a ← as_user ("podman" ∷ "secret" ∷ "rm" ∷ "--" ∷ name ∷ []) none
    lift (secret_removed name a)

  -- the error of the removal is dropped
  unfoldable pub secret_create : String → String → Exec (Unit {0})
  secret_create name value w =
      wrapped ("podman" ∷ "secret" ∷ "create" ∷ "--" ∷ name ∷ "-" ∷ []) (some value)
        (secret_remove name w).1

  unfoldable pub login : String → String → String → Bool → Exec (Unit {0})
  login reg account password insecure =
      wrapped
        ("podman"
          ∷ "login"
          ∷ "--username"
          ∷ account
          ∷ "--password-stdin"
          ∷ (if insecure then "--tls-verify=false" ∷ "--" ∷ reg ∷ [] else "--" ∷ reg ∷ []))
        (some password)
