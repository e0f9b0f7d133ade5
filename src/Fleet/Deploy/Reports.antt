-- ===== src/Fleet/Deploy/Reports.antt =====
-- The row of a deployment tells whether every step of it succeeded.
use rucher.Base.{◌&&◌, if◌then◌else◌}
use rucher.Fleet.Resolve.{resolve}
use rucher.Base.Result.{err, ok, Result}
use rucher.Fleet.{append-non_empty, NodeConfig, Target, Fleet, Call}
use rucher.Base.{
  none, some, true, Option, Bool, is_empty, ◌≡◌, ◌∷◌, refl, false, String, List, [], string_eq,
  nat_eq,
}
use rucher.Fleet.Deploy.{
  new_row, deploy_one, row_of, deploy_steps, deploy_to, deploy_known, install_path, fetch,
  answer_error, step_message, Options, download, with_prefix, pass, upload, enroll, bootstrap_agent,
  verify, deliver, provision, ask, step, ssh, fail_if, attempt, fail_on, fail, go, resume, stop,
  Steps, Early, Row, ◌>>=◌,
}

-- a row of a deployment that goes on
record IsOpen (row : Row) : Type 0 where
  not_good : row.good ≡ false
  no_errors : row.errors ≡ []
  no_agent : row.agent_installed ≡ false

record IsFailed (row : Row) : Type 0 where
  not_good : row.good ≡ false
  has_errors : is_empty row.errors ≡ false
  no_agent : row.agent_installed ≡ false

abbrev After : {A : Type 0} → (A → Type 0) → Early A → Type 0
After Q (stop row) = IsFailed row
After Q (go a) = Q a

-- The step stops at a failed row, or goes on with what satisfies `Q`.
record Ends {A : Type 0} (Q : A → Type 0) (m : Steps A) : Type 0 where
  at : (calls : List Call) → After Q (m calls).0

module _ {A B : Type 0} (Q : A → Type 0) (R : B → Type 0) where
  resume-After :
      (r : Early A) (f : A → Steps B) (calls : List Call)
      → After Q r
      → ((a : A) → Q a → Ends R (f a))
      → After R (resume r f calls).0
  resume-After (stop row) f calls h k = h
  resume-After (go a) f calls h k = (k a h).at calls

  Ends-bind :
      (m : Steps A) (f : A → Steps B) → Ends Q m → ((a : A) → Q a → Ends R (f a)) → Ends R (m >>= f)
  Ends-bind m f hm hf = record {
    at = λ calls. resume-After (m calls).0 f (m calls).1 (hm.at calls) hf;
  }

fail-IsFailed : (row : Row) (msg : String) → IsOpen row → IsFailed (fail row msg)
unfolding fail
fail-IsFailed row msg o = record {
  not_good = o.not_good;
  has_errors = append-non_empty row.errors msg;
  no_agent = o.no_agent;
}

abbrev Any : {A : Type 0} → A → Type 0
Any a = Unit

fail_if-Ends : (b : Bool) (row : Row) (msg : String) → IsOpen row → Ends Any (fail_if b row msg)
fail_if-Ends true row msg o = record { at = λ calls. fail-IsFailed row msg o }
fail_if-Ends false row msg o = record { at = λ calls. tt }

fail_on-Ends : (row : Row) (m : Option String) → IsOpen row → Ends Any (fail_on row m)
unfolding fail_on
fail_on-Ends row none o = record { at = λ calls. tt }
fail_on-Ends row (some msg) o = record { at = λ calls. fail-IsFailed row msg o }

attempt-Ends :
    {A : Type 0} (row : Row) (r : Result A) → IsOpen row → Ends {A = A} Any (attempt row r)
unfolding attempt
attempt-Ends row (ok a) o = record { at = λ calls. tt }
attempt-Ends row (err e) o = record { at = λ calls. fail-IsFailed row e o }

module _ (fleet : Fleet) where
  ssh-Ends :
      (t : Target) (argv : List String) (stdin : Option String) → Ends Any (ssh fleet t argv stdin)
  unfolding ssh
  ssh-Ends t argv stdin = record { at = λ calls. tt }

  step-Ends :
      (row : Row) (t : Target) (argv : List String) (stdin : Option String) (what : String)
      → IsOpen row
      → Ends Any (step fleet row t argv stdin what)
  unfolding step
  step-Ends row t argv stdin what o =
      Ends-bind Any Any (ssh fleet t argv stdin) _ (ssh-Ends t argv stdin)
        (λ a q. fail_on-Ends row (with_prefix what (step_message a)) o)

  ask-Ends :
      (row : Row) (t : Target) (argv : List String) (what : String)
      → IsOpen row
      → Ends Any (ask fleet row t argv what)
  unfolding ask
  ask-Ends row t argv what o =
      Ends-bind Any Any (ssh fleet t argv none) _ (ssh-Ends t argv none) (λ a q.
        Ends-bind Any Any (fail_on row (answer_error what a)) _
          (fail_on-Ends row (answer_error what a) o) (λ u q'. record { at = λ calls. tt }))

  -- the next step, when this one asks nothing of it
  Ends-then :
      {A B : Type 0} (R : B → Type 0) (m : Steps A) (f : A → Steps B)
      → Ends Any m
      → ((a : A) → Ends R (f a))
      → Ends R (m >>= f)
  Ends-then R m f hm hf = Ends-bind Any R m f hm (λ a q. hf a)

  ruleset ends_rules = (Ends-then, fail_if-Ends, attempt-Ends, ssh-Ends, step-Ends, ask-Ends)

  provision-Ends :
      (row : Row) (t : Target) (source version : String)
      → IsOpen row
      → Ends Any (provision fleet row t source version)
  unfolding provision
  provision-Ends row t source version o = search ends_rules depth 8

  deliver-Ends :
      (row : Row) (t : Target) (opts : Options) (b : Option String)
      → IsOpen row
      → Ends Any (deliver fleet row t opts b)
  unfolding deliver upload download fetch
  deliver-Ends row t opts none o = search ends_rules depth 12
  deliver-Ends row t opts (some binary) o = search ends_rules

  verify-Ends : (row : Row) (t : Target) → IsOpen row → Ends Any (verify fleet row t)
  unfolding verify
  verify-Ends row t o = search ends_rules

  -- the row at the end of the last step
  record IsLast (bootstrapped : Bool) (row : Row) : Type 0 where
    not_good : row.good ≡ false
    no_errors : row.errors ≡ []
    agent : row.agent_installed ≡ bootstrapped

  record IsDone (bootstrapped : Bool) (row : Row) : Type 0 where
    good : row.good ≡ true
    no_errors : row.errors ≡ []
    agent : row.agent_installed ≡ bootstrapped

  installed-IsLast :
      (row : Row) → IsOpen row → Ends (IsLast true) (pass (record row { agent_installed = true }))
  installed-IsLast row o = record {
    at = λ calls. record { not_good = o.not_good; no_errors = o.no_errors; agent = refl };
  }

  bootstrap_agent-Ends :
      (row : Row) (t : Target) (name : String) (opts : Options)
      → IsOpen row
      → Ends (IsLast true) (bootstrap_agent fleet row t name opts)
  unfolding bootstrap_agent
  bootstrap_agent-Ends row t name opts o = search (ends_rules, installed-IsLast row o) depth 12

  maybe_bootstrap-Ends :
      (b : Bool) (row : Row) (t : Target) (name : String) (opts : Options)
      → IsOpen row
      → Ends (IsLast b) (if b then bootstrap_agent fleet row t name opts else pass row)
  maybe_bootstrap-Ends true row t name opts o = bootstrap_agent-Ends row t name opts o
  maybe_bootstrap-Ends false row t name opts o = record {
    at = λ calls. record { not_good = o.not_good; no_errors = o.no_errors; agent = o.no_agent };
  }

  enroll-Ends :
      (row : Row) (t : Target) (name : String) (opts : Options)
      → IsOpen row
      → Ends (IsDone opts.bootstrap) (enroll fleet row t name opts)
  unfolding enroll
  enroll-Ends row t name opts o =
      Ends-then (IsDone opts.bootstrap)
        (ask fleet row t ("sudo" ∷ install_path ∷ "node" ∷ "key" ∷ "init" ∷ []) "node key init") _
        (ask-Ends row t _ "node key init" o)
        (λ recipient.
          let known : Row = record row { recipient = recipient } in
          let still : IsOpen known = record {
            not_good = o.not_good;
            no_errors = o.no_errors;
            no_agent = o.no_agent;
          } in
          Ends-bind (IsLast opts.bootstrap) (IsDone opts.bootstrap)
            (if opts.bootstrap then bootstrap_agent fleet known t name opts else pass known) _
            (maybe_bootstrap-Ends opts.bootstrap known t name opts still)
            (λ last l. record {
              at = λ calls. record { good = refl; no_errors = l.no_errors; agent = l.agent };
            }))

  deploy_known-Ends :
      (row : Row) (t : Target) (name : String) (cfg : NodeConfig) (opts : Options)
      → IsOpen row
      → Ends (IsDone opts.bootstrap) (deploy_known fleet row t name cfg opts)
  unfolding deploy_known
  deploy_known-Ends row t name cfg opts o =
      search (ends_rules, provision-Ends, deliver-Ends, verify-Ends, enroll-Ends) depth 14

  deploy_to-Ends :
      (row : Row) (t : Target) (name : String) (cfg : NodeConfig) (opts : Options)
      → IsOpen row
      → Ends (IsDone opts.bootstrap) (deploy_to fleet row t name cfg opts)
  unfolding deploy_to
  deploy_to-Ends row t name cfg opts o =
      Ends-then (IsDone opts.bootstrap)
        (ask fleet row t ("dpkg" ∷ "--print-architecture" ∷ []) "dpkg --print-architecture") _
        (ask-Ends row t _ "dpkg --print-architecture" o)
        (λ arch.
          deploy_known-Ends (record row { arch = arch }) t name cfg opts
            (record { not_good = o.not_good; no_errors = o.no_errors; no_agent = o.no_agent }))

  deploy_steps-Ends :
      (name : String) (opts : Options) → Ends (IsDone opts.bootstrap) (deploy_steps fleet name opts)
  unfolding deploy_steps
  deploy_steps-Ends name opts =
      Ends-then (IsDone opts.bootstrap) (attempt (new_row name) (fleet.config_of name)) _
        (attempt-Ends (new_row name) (fleet.config_of name)
          (record { not_good = refl; no_errors = refl; no_agent = refl }))
        (λ cfg.
          let row : Row = record (new_row name) { address = cfg.address } in
          let open_row : IsOpen row = record {
            not_good = refl;
            no_errors = refl;
            no_agent = refl;
          } in
          Ends-then (IsDone opts.bootstrap) (attempt row (resolve fleet name cfg)) _
            (attempt-Ends row (resolve fleet name cfg) open_row)
            (λ t. deploy_to-Ends row t name cfg opts open_row))

  row_of-reports :
      (b : Bool) (r : Early Row)
      → After (IsDone b) r
      → ((row_of fleet r).good ≡ is_empty (row_of fleet r).errors)
        × ((row_of fleet r).agent_installed ≡ ((row_of fleet r).good && b))
  row_of-reports b (stop row) f = (cc (f.not_good, f.has_errors), rw (f.no_agent, f.not_good) refl)
  row_of-reports b (go row) d = (rw (d.good, d.no_errors) refl, rw (d.good) d.agent)

  -- The row of a deployment is OK exactly when it has no error, and says that the agent is installed
  -- exactly when it is OK and the bootstrap was asked for.
  pub deploy_one-reports :
      (name : String) (opts : Options) (calls : List Call)
      → ((deploy_one fleet name opts calls).0.good
          ≡ is_empty (deploy_one fleet name opts calls).0.errors)
        × ((deploy_one fleet name opts calls).0.agent_installed
            ≡ ((deploy_one fleet name opts calls).0.good && opts.bootstrap))
  unfolding deploy_one
  deploy_one-reports name opts calls =
      row_of-reports opts.bootstrap (deploy_steps fleet name opts calls).0
        ((deploy_steps-Ends name opts).at calls)
