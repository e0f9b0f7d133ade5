-- ===== src/Reconcile/Outcome.antt =====
-- What an apply that succeeds has saved, and what the next one finds.
use rucher.Plan.Compute.{compute}
use rucher.Reconcile.Converge.{compute-next_state}
use rucher.Ops.{Ops}
use rucher.Base.{
  Distinct, ◌≡◌, ◌∙◌, refl, ap, true, some, String, List, [], arith, eq_iff, string_eq, nat_eq,
}
use rucher.Base.Int.{int_beq_iff, ℤ}
use rucher.Base.Int.{int_eq}
use rucher.Base.Dict.{Dict, lookup, keys, lookup-insert}
use rucher.Base.Result.{ok}
use rucher.Cadre.{IsLoaded, Cadre}
use rucher.State.{State}
use rucher.Plan.{set_of, Plan, is_empty_plan}
use rucher.Provision.{user_name, ensure_user}
use rucher.Provision.Silent.{ensure_user-Quiet}
use rucher.Host.{failures, World, Env, ◌>>=◌, stored}
use rucher.Host.Quiet.{Returns-pure, >>=-result-ok, Returns-bind, Returns, >>=-eq-ok}
use rucher.Reconcile.NextState.{Codec, next_state}
use rucher.Reconcile.Apply.{
  execute_rest, apply_from, apply_with, state_at, apply_as, save_next, secrets_at, load_secrets,
  load_state, save_state, state_path, execute, apply, with_prune, codec, stop_removed, apply_limits,
}
use rucher.Reconcile.Decide.{plan_for, retain_failed}

-- The values that an apply of `c` from `w` went through, to the plan `p` and the world `w'`.
pub record Applied (env : Env) (c : Cadre) (w : World) (p : Plan) (w' : World) : Type 0 where
  pub uid : ℤ
  pub values : Dict String
  pub secret_hashes : Dict String
  pub prior : State
  pub bad : List String
  pub user : (ensure_user env c.name w).0 ≡ ok uid
  pub secrets :
      secrets_at env (with_prune env c) (ensure_user env c.name w).1 ≡ ok (values, secret_hashes)
  pub loaded : state_at env (state_path env c.name) (ensure_user env c.name w).1 ≡ ok prior
  pub plan : p ≡ plan_for (with_prune env c) secret_hashes uid prior
  pub ran :
      (execute env
        (with_prune env c)
        uid
        values
        prior
        (plan_for (with_prune env c) secret_hashes uid prior)
        (ensure_user env c.name w).1).0
      ≡ ok bad
  pub saved :
      lookup (state_path env c.name) w'.states
      ≡ some (
          stored (
            retain_failed prior bad
              (next_state (codec env) (with_prune env c) uid secret_hashes values)))

module _ (env : Env) where
  save_next-eq-ok :
      (c : Cadre) (uid : ℤ) (secrets : Dict String × Dict String) (prior : State) (p : Plan)
      (bad : List String) (w : World) {p' : Plan} {w' : World}
      → save_next env c uid secrets prior p bad w ≡ (ok p', w')
      → (p' ≡ p)
        × (lookup (state_path env c.name) w'.states
            ≡ some (
                stored
                  (retain_failed prior bad (next_state (codec env) c uid secrets.1 secrets.0))))
  unfolding save_next save_state
  save_next-eq-ok c uid secrets prior p bad w h = ground (
    arith,
    lookup-insert (state_path env c.name) (state_path env c.name)
        (stored (retain_failed prior bad (next_state (codec env) c uid secrets.1 secrets.0)))
        w.states,
    eq_iff (state_path env c.name) (state_path env c.name),
  )

  -- Inversion of an apply that succeeded.
  pub apply-Applied :
      (c : Cadre) (w : World) (p : Plan) (w' : World)
      → apply env c w ≡ (ok p, w')
      → Applied env c w p w'
  unfolding apply apply_as apply_with apply_from load_state load_secrets with_prune
  apply-Applied c w p w' h =
      let c' = with_prune env c in
      let w1 = (ensure_user env c.name w).1 in
      let (uid, e1, h1) = >>=-eq-ok (ensure_user env c.name) (apply_as env c') w h in
      let (secrets, e2, h2) = >>=-eq-ok (load_secrets env c') (apply_with env c' uid) w1 h1 in
      let (prior, e3, h3) =
        >>=-eq-ok (load_state env (state_path env c.name)) (apply_from env c' uid secrets) w1 h2 in
      let p0 = plan_for c' secrets.1 uid prior in
      let (bad, e4, h4) =
        >>=-eq-ok (execute env c' uid secrets.0 prior p0) (save_next env c' uid secrets prior p0) w1
          h3 in
      let (e5, e6) = save_next-eq-ok c' uid secrets prior p0 bad _ h4 in
      record {
        uid = uid;
        values = secrets.0;
        secret_hashes = secrets.1;
        prior = prior;
        bad = bad;
        user = e1;
        secrets = e2;
        loaded = e3;
        plan = e5;
        ran = e4;
        saved = e6;
      }

  execute_rest-Returns :
      (c : Cadre) (o : Ops) (values : Dict String) (prior : State) (p : Plan) (bad : List String)
      → Returns bad (execute_rest env c o values prior p bad)
  unfolding execute_rest
  execute_rest-Returns c o values prior p bad = search (Returns-bind, Returns-pure) depth 9

  stop_removed-nil :
      (o : Ops) (p : Plan) (w : World)
      → p.stop_units ≡ []
      → p.disable_units ≡ []
      → (stop_removed env o p w).0 ≡ ok []
  unfolding stop_removed failures set_of
  stop_removed-nil o p w s d = rw (s, d)

  -- A plan that stops nothing has no stop that failed.
  pub execute-nothing_failed :
      (c : Cadre) (uid : ℤ) (values : Dict String) (prior : State) (p : Plan) (w : World)
      {bad : List String}
      → p.stop_units ≡ []
      → p.disable_units ≡ []
      → (execute env c uid values prior p w).0 ≡ ok bad
      → bad ≡ []
  unfolding execute
  execute-nothing_failed c uid values prior p w {bad} s d h =
      let o : Ops = record { name = user_name c.name; uid = uid } in
      let (u, e1, h1) =
        >>=-result-ok (apply_limits env uid p.resources)
          (λ _. stop_removed env o p >>= execute_rest env c o values prior p) w h in
      let (b, e2, h2) =
        >>=-result-ok (stop_removed env o p) (execute_rest env c o values prior p)
          (apply_limits env uid p.resources w).1 h1 in
      let same : b ≡ [] =
        cc (e2, stop_removed-nil o p (apply_limits env uid p.resources w).1 s d) in
      (execute_rest-Returns c o values prior p b).at _ bad h2 ∙ same

retain_failed-nil :
    (prior : State) (bad : List String) (next : State)
    → bad ≡ []
    → retain_failed prior bad next ≡ next
unfolding retain_failed
retain_failed-nil prior bad next e = rw e

uid-next_state :
    (k : Codec) (c : Cadre) (uid : ℤ) (hashes values : Dict String)
    → (next_state k c uid hashes values).uid ≡ uid
unfolding next_state
uid-next_state k c uid hashes values = refl

-- Without a change of the uid the plan is made against the prior state.
pub plan_for_same :
    (c : Cadre) (secret_hashes : Dict String) (uid : ℤ) (prior : State)
    → prior.uid ≡ uid
    → plan_for c secret_hashes uid prior ≡ compute c secret_hashes prior
unfolding plan_for
plan_for_same c secret_hashes uid prior e = ground (arith, int_beq_iff uid prior.uid)

module _ (env : Env) (c : Cadre) (w : World) {p : Plan} {w1 : World} {p2 : Plan} {w2 : World}
    (a : Applied env c w p w1) (b : Applied env c w1 p2 w2) where
  -- the prior state of the second run is what the first run saved
  prior-next :
      b.prior
      ≡ retain_failed a.prior a.bad
          (next_state (codec env) (with_prune env c) a.uid a.secret_hashes a.values)
  unfolding state_at
  prior-next = ground (arith, a.saved, b.loaded, (ensure_user-Quiet env c.name).at w1)

  pub second_plan-is_empty :
      IsLoaded (with_prune env c)
      → Distinct (keys a.secret_hashes)
      → a.bad ≡ []
      → a.uid ≡ b.uid
      → a.secret_hashes ≡ b.secret_hashes
      → is_empty_plan p2 ≡ true
  second_plan-is_empty l d none_failed same_uid same_secrets =
      let next = next_state (codec env) (with_prune env c) a.uid a.secret_hashes a.values in
      let e : b.prior ≡ next = prior-next ∙ retain_failed-nil a.prior a.bad next none_failed in
      let u : b.prior.uid ≡ b.uid =
        ap (λ (s : State). s.uid) e
        ∙ uid-next_state (codec env) (with_prune env c) a.uid _ _
        ∙ same_uid in
      rw
        (
          b.plan,
          plan_for_same (with_prune env c) b.secret_hashes b.uid b.prior u,
          e,
          ← same_secrets,
        )
        (compute-next_state (codec env) (with_prune env c) a.uid a.secret_hashes a.values l d)
