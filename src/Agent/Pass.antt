-- ===== src/Agent/Pass.antt =====
-- What a pass reports of the assigned cadres and of the others.
use rucher.Base.Text.{is_none}
use rucher.Base.Result.{with_context, Result}
use rucher.Host.{World, Exec, Env}
use rucher.Agent.{
  reported, unmanage_cadre, any_failed, finish_pass, apply_one, list_states, Outcome, err,
  over_assigned, resume_pass, outcome_of, pass_over, assigned_here, ok, run_pass, Outside,
  remove_each, apply_each,
}
use rucher.Base.{
  false, true, Bool, all, ◌≡◌, ◌∙◌, ◌&&◌, ◌∷◌, refl, ap, inl, inr, not, none, some, String, List,
  [], map, arith, eq_iff, if◌then◌else◌, string_eq, nat_eq, contains, Bool-cases,
}

outcome_of-name : (name : String) (r : Result (Unit {0})) → (outcome_of name r).name ≡ name
unfolding outcome_of
outcome_of-name name (ok u) = refl
outcome_of-name name (err e) = refl

apply_each-names :
    (f : String → Exec (Unit {0})) (names : List String) (w : World)
    → map (λ o. o.name) (apply_each f names w).0 ≡ names
unfolding apply_each
apply_each-names f [] w = refl
apply_each-names f (name ∷ names) w =
    rw (outcome_of-name name (f name w).0, apply_each-names f names (f name w).1) refl

contains-remove_each :
    (f : String → Exec (Unit {0})) (k : String) (assigned names : List String) (w : World)
    → contains k (remove_each f assigned names w).0
      ≡ (contains k names && not (contains k assigned))
unfolding remove_each
contains-remove_each f k assigned [] w = refl
contains-remove_each f k assigned (name ∷ names) w = elim (Bool-cases (contains name assigned)) [
  | inl c ↦
      rw (c, remove_each) (ground (arith, contains-remove_each f k assigned names w, eq_iff name k))
  | inr c ↦
      rw (c, remove_each)
        (ground (arith, contains-remove_each f k assigned names (f name w).1, eq_iff name k))
]

-- every one of the cadres, applied in turn, returns no error
abbrev pub succeeds : Result (Unit {0}) → Bool
succeeds (ok u) = true
succeeds (err e) = false

unfoldable pub all_succeed : (String → Exec (Unit {0})) → List String → World → Bool
all_succeed f [] w = true
all_succeed f (name ∷ names) w = succeeds (f name w).0 && all_succeed f names (f name w).1

outcome_of-good : (name : String) (r : Result (Unit {0})) → (outcome_of name r).good ≡ succeeds r
unfolding outcome_of
outcome_of-good name (ok u) = refl
outcome_of-good name (err e) = refl

apply_each-good :
    (f : String → Exec (Unit {0})) (names : List String) (w : World)
    → all (λ o. o.good) (apply_each f names w).0 ≡ all_succeed f names w
unfolding apply_each all_succeed
apply_each-good f [] w = refl
apply_each-good f (name ∷ names) w =
    rw (outcome_of-good name (f name w).0, apply_each-good f names (f name w).1) refl

no_failure :
    (outcomes : List Outcome)
    → is_none {A = String}
        (if any_failed outcomes then some "one or more cadres failed to apply" else none)
      ≡ all (λ o. o.good) outcomes
no_failure [] = refl
no_failure (o ∷ os) = ground (arith, no_failure os)

module _ (env : Env) (out : Outside) where
  pub run_pass-eq :
      (node_id node_identity checkout rev : String) (names : List String) (w : World)
      → out.sync ≡ ok (checkout, rev)
      → assigned_here env out checkout node_id ≡ ok names
      → run_pass env out node_id node_identity w
        ≡ pass_over env out checkout rev node_identity names w
  unfolding run_pass resume_pass pass_over over_assigned
  run_pass-eq node_id node_identity checkout rev names w s a =
      ap (λ r. resume_pass env out node_id node_identity (with_context "store sync" r) w) s
      ∙ ap (λ r. over_assigned env out checkout rev node_identity r w) a

  -- the host behind the loop over the assigned cadres
  abbrev pub after_applying : String → String → List String → World → World
  after_applying checkout node_identity names w =
      (apply_each (apply_one env out checkout node_identity) names w).1

  pub pass_over-eq :
      (checkout rev node_identity : String) (names managed : List String) (w : World)
      → list_states (out.read_state_dir (after_applying checkout node_identity names w))
        ≡ ok managed
      → pass_over env out checkout rev node_identity names w
        ≡ finish_pass env out
            (reported rev (apply_each (apply_one env out checkout node_identity) names w).0)
            names
            (ok managed)
            (after_applying checkout node_identity names w)
  unfolding pass_over
  pass_over-eq checkout rev node_identity names managed w l =
      ap
        (λ r.
          finish_pass env out
            (reported rev (apply_each (apply_one env out checkout node_identity) names w).0) names r
            (after_applying checkout node_identity names w))
        l

  -- A pass that can read the store, the placement and the list of the managed cadres reports every
  -- assigned cadre once, in order, whatever became of the ones before it; it returns no error exactly when
  -- the apply of each of them returned none; and the cadres it reports as removed are the managed ones that are not
  -- assigned.
  pub run_pass-reports :
      (node_id node_identity checkout rev : String) (names managed : List String) (w : World)
      → out.sync ≡ ok (checkout, rev)
      → assigned_here env out checkout node_id ≡ ok names
      → list_states (out.read_state_dir (after_applying checkout node_identity names w))
        ≡ ok managed
      → (map (λ o. o.name) (run_pass env out node_id node_identity w).0.0.applied ≡ names)
        × (is_none (run_pass env out node_id node_identity w).0.1
            ≡ all (λ o. o.good) (run_pass env out node_id node_identity w).0.0.applied)
        × (is_none (run_pass env out node_id node_identity w).0.1
            ≡ all_succeed (apply_one env out checkout node_identity) names w)
        × ((k : String)
            → contains k (run_pass env out node_id node_identity w).0.0.removed
              ≡ (contains k managed && not (contains k names)))
  unfolding finish_pass
  run_pass-reports node_id node_identity checkout rev names managed w s a l =
      rw
        (
          run_pass-eq node_id node_identity checkout rev names w s a,
          pass_over-eq checkout rev node_identity names managed w l,
        )
        (
          apply_each-names (apply_one env out checkout node_identity) names w,
          no_failure (apply_each (apply_one env out checkout node_identity) names w).0,
          no_failure (apply_each (apply_one env out checkout node_identity) names w).0
              ∙ apply_each-good (apply_one env out checkout node_identity) names w,
          λ k. contains-remove_each (unmanage_cadre env out) k names managed _,
        )
