-- ===== src/Agent/Forget.antt =====
-- What a pass leaves of the cadres that are no longer assigned.
use rucher.Agent.Pass.{pass_over-eq, run_pass-eq, after_applying}
use rucher.Agent.{run_pass, list_states, assigned_here, finish_pass, Outside, remove_each}
use rucher.Reconcile.Apply.{state_path, state_at}
use rucher.Provision.{valid_name}
use rucher.Ops.{as_user, wrapped, sc, daemon_reload}
use rucher.Ops.Silent.{ops_rules}
use rucher.State.{empty, State}
use rucher.Reconcile.Remove.{
  remove_loaded, prior_state, remove, best_effort, try_user, stop_managed, drop_state, unmanage,
  without,
}
use rucher.Host.Quiet.{Quiet-pure, Quiet-throw_if, quiet_rules, Quiet}
use rucher.Base.Dict.{lookup, Dict}
use rucher.Base.Result.{err, ok, Result}
use rucher.Base.{
  ◌≡◌, ◌⊎◌, ◌∙◌, ◌==◌, ◌∷◌, refl, ap, inl, inr, Bool, true, false, not, none, String, List, [],
  arith, eq_iff, if◌then◌else◌, string_eq, nat_eq, contains, All, Bool-cases,
}
use rucher.Host.{Command, each, failed, Exec, run, StateFile, continue, Env, World, ◌>>=◌}
use rucher.Reconcile.Removed.{remove-unmanages}

-- A state file is gone, or as it was.
abbrev Kept : String → World → World → Type 0
Kept k w w' = (lookup k w'.states ≡ none) ⊎ (lookup k w'.states ≡ lookup k w.states)

Kept-trans : (k : String) (u v w : World) → Kept k u v → Kept k v w → Kept k u w
Kept-trans k u v w h (inl e) = inl e
Kept-trans k u v w (inl d) (inr e) = inl (e ∙ d)
Kept-trans k u v w (inr d) (inr e) = inr (e ∙ d)

-- A computation deletes state files, or leaves them as they are.
record Deletes {ℓ} {A : Type ℓ} (m : World → Result A × World) : Type ℓ where
  at : (k : String) (w : World) → Kept k w (m w).1

Deletes-Quiet {ℓ} : {A : Type ℓ} (m : World → Result A × World) → Quiet m → Deletes m
Deletes-Quiet m q = record { at = λ k w. inr (ap (lookup k) (q.at w)) }

module _ {ℓ κ} {A : Type ℓ} {B : Type κ} where
  Deletes-continue :
      (r : Result A) (f : A → World → Result B × World) (k : String) (w : World)
      → ((a : A) → Deletes (f a))
      → Kept k w (continue r f w).1
  Deletes-continue (ok a) f k w h = (h a).at k w
  Deletes-continue (err e) f k w h = inr refl

  Deletes-bind :
      (m : World → Result A × World) (f : A → World → Result B × World)
      → Deletes m
      → ((a : A) → Deletes (f a))
      → Deletes (m >>= f)
  Deletes-bind m f dm df = record {
    at = λ k w.
        Kept-trans k w (m w).1 (continue (m w).0 f (m w).1).1 (dm.at k w)
          (Deletes-continue (m w).0 f k (m w).1 df);
  }

best_effort-Quiet : (m : Exec (Unit {0})) → Quiet m → Quiet (best_effort m)
best_effort-Quiet m q = record { at = q.at }

lookup-without-if :
    (path k : String) (m : Dict StateFile)
    → lookup k (without path m) ≡ (if path == k then none else lookup k m)
lookup-without-if path k [] = ground arith
lookup-without-if path k ((j, file) ∷ m) =
    ground (arith, lookup-without-if path k m, eq_iff j k, eq_iff j path, eq_iff path k)

without-Kept :
    (path k : String) (w : World) → Kept k w (record w { states = without path w.states })
without-Kept path k w = elim (Bool-cases (path == k)) [
  | inl e ↦ inl (lookup-without-if path k w.states ∙ rw e refl)
  | inr e ↦ inr (lookup-without-if path k w.states ∙ rw e refl)
]

if-Kept :
    (b : Bool) (k : String) (w u v : World)
    → Kept k w u
    → Kept k w v
    → Kept k w (if b then u else v)
if-Kept true k w u v hu hv = hu
if-Kept false k w u v hu hv = hv

module _ (env : Env) where
  unmanage-Quiet : (name : String) (prior : State) → Quiet (unmanage env name prior)
  unfolding unmanage stop_managed try_user each daemon_reload sc wrapped as_user run
  unmanage-Quiet name prior = search (quiet_rules, ops_rules, best_effort-Quiet) depth 12

  drop_state-Deletes : (path : String) → Deletes (drop_state env path)
  unfolding drop_state run
  drop_state-Deletes path = record {
    at = λ k w. if-Kept (failed (env.answer w.trace _)) k w _ _ (inr refl) (without-Kept path k w);
  }

  remove_loaded-Deletes :
      (name : String) (prior : State) → Deletes (remove_loaded env name false prior)
  unfolding remove_loaded
  remove_loaded-Deletes name prior =
      Deletes-bind _ _ (Deletes-Quiet _ (unmanage-Quiet name prior)) (λ u.
        Deletes-bind _ _ (drop_state-Deletes (state_path env name))
          (λ v. Deletes-Quiet _ (Quiet-pure tt)))

  remove-Deletes : (name : String) → Deletes (remove env name false)
  unfolding remove prior_state
  remove-Deletes name =
      Deletes-bind _ _ (Deletes-Quiet _ (Quiet-throw_if (not (valid_name name)) _)) (λ u.
        Deletes-bind (prior_state env name) _ (record { at = λ k w. inr refl })
          (λ prior. remove_loaded-Deletes name prior))

  abbrev pub Removable : String → World → Type 0
  Removable name w =
      (valid_name name ≡ true)
      × ((prior : State) × (state_at env (state_path env name) w ≡ ok prior))

  Removable-Kept :
      (name : String) (w w' : World)
      → Kept (state_path env name) w w'
      → Removable name w
      → Removable name w'
  unfolding state_at
  Removable-Kept name w w' (inl e) (v, (prior, h)) = (v, (empty, rw (e, state_at) refl))
  Removable-Kept name w w' (inr e) (v, (prior, h)) = (v, (prior, rw (e, state_at) h))

  remove_each-Kept :
      (k : String) (assigned names : List String) (w : World)
      → Kept k w (remove_each (λ name. remove env name false) assigned names w).1
  unfolding remove_each
  remove_each-Kept k assigned [] w = inr refl
  remove_each-Kept k assigned (name ∷ names) w = elim (Bool-cases (contains name assigned)) [
    | inl c ↦ rw (c, remove_each) (remove_each-Kept k assigned names w)
    | inr c ↦
        rw (c, remove_each)
          (Kept-trans k w (remove env name false w).1
            (remove_each (λ n. remove env n false) assigned names (remove env name false w).1).1
            ((remove-Deletes name).at k w)
            (remove_each-Kept k assigned names (remove env name false w).1))
  ]

  All-Removable-Kept :
      (names : List String) (name : String) (w : World)
      → All (λ n. Removable n w) names
      → All (λ n. Removable n (remove env name false w).1) names
  All-Removable-Kept [] name w h = tt
  All-Removable-Kept (n ∷ names) name w h = (
    Removable-Kept n w _ ((remove-Deletes name).at (state_path env n) w) h.0,
    All-Removable-Kept names name w h.1,
  )

  none-Kept :
      (k : String) (w w' : World)
      → lookup k w.states ≡ none
      → Kept k w w'
      → lookup k w'.states ≡ none
  none-Kept k w w' n (inl e) = e
  none-Kept k w w' n (inr e) = e ∙ n

  -- The host: every command succeeds.
  abbrev pub Works : Type 0
  Works = (trace : List Command) (c : Command) → failed (env.answer trace c) ≡ false

  removed_head :
      (k name : String) (w : World)
      → Works
      → Removable name w
      → name ≡ k
      → lookup (state_path env k) (remove env name false w).1.states ≡ none
  removed_head k name w works (v, (prior, h)) same =
      rw (← same) ((remove-unmanages env name w prior v h works).1)

  gone_then :
      (k : String) (assigned names : List String) (w : World)
      → lookup (state_path env k) w.states ≡ none
      → lookup (state_path env k) (remove_each (λ n. remove env n false) assigned names w).1.states
        ≡ none
  gone_then k assigned names w n =
      none-Kept (state_path env k) w (remove_each (λ m. remove env m false) assigned names w).1 n
        (remove_each-Kept (state_path env k) assigned names w)

  remove_each-gone :
      (k : String) (assigned names : List String) (w : World)
      → Works
      → All (λ n. Removable n w) names
      → contains k names ≡ true
      → contains k assigned ≡ false
      → lookup
          (state_path env k)
          (remove_each (λ name. remove env name false) assigned names w).1.states
        ≡ none
  unfolding remove_each
  remove_each-gone k assigned [] w works h i a = ground arith
  remove_each-gone k assigned (name ∷ names) w works h i a =
      elim (Bool-cases (contains name assigned)) [
        | inl c ↦
            rw (c, remove_each)
              (remove_each-gone k assigned names w works h.1 (ground (arith, eq_iff name k)) a)
        | inr c ↦
            rw (c, remove_each)
              (elim (Bool-cases (name == k)) [
                | inl e ↦
                    gone_then k assigned names (remove env name false w).1
                      (removed_head k name w works h.0 ((eq_iff name k).0 e))
                | inr e ↦
                    remove_each-gone k assigned names _ works (All-Removable-Kept names name w h.1)
                      (ground arith) a
              ])
      ]

module _ (env : Env) (out : Outside) where
  -- On a host where every command succeeds, a pass that can read the store, the placement and the list of
  -- the managed cadres leaves no state file of a managed cadre that is not assigned, when those cadres
  -- have valid names and readable states.
  pub run_pass-forgets :
      (node_id node_identity checkout rev : String) (names managed : List String) (w : World)
      (k : String)
      → Works env
      → out.sync ≡ ok (checkout, rev)
      → assigned_here env out checkout node_id ≡ ok names
      → list_states (out.read_state_dir (after_applying env out checkout node_identity names w))
        ≡ ok managed
      → All (λ n. Removable env n (after_applying env out checkout node_identity names w)) managed
      → contains k managed ≡ true
      → contains k names ≡ false
      → lookup (state_path env k) (run_pass env out node_id node_identity w).1.states ≡ none
  unfolding finish_pass
  run_pass-forgets node_id node_identity checkout rev names managed w k works s a l valid m u =
      rw
        (
          run_pass-eq env out node_id node_identity checkout rev names w s a,
          pass_over-eq env out checkout rev node_identity names managed w l,
        )
        (remove_each-gone env k names managed
          (after_applying env out checkout node_identity names w) works valid m u)
