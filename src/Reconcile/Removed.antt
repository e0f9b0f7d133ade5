-- ===== src/Reconcile/Removed.antt =====
-- When `Remove` changes nothing, and what it leaves behind when it does.
use rucher.Base.{
  ◌≡◌, ◌⊎◌, ◌∷◌, refl, inl, inr, Bool, true, false, none, String, List, [], arith, if◌then◌else◌,
  string_eq, nat_eq, Bool-cases,
}
use rucher.Base.Int.{int_eq}
use rucher.Base.Dict.{Dict, lookup}
use rucher.Base.Result.{Result, ok, err}
use rucher.State.{State}
use rucher.Provision.{valid_name}
use rucher.Ops.{Ops}
use rucher.Host.{World, StateFile, Command, Env, Exec, pure, ◌>>=◌, ◌>>◌, each, run, failed}
use rucher.Reconcile.Apply.{state_path, state_at}
use rucher.Reconcile.Remove.{
  best_effort, without, try_user, drop_state, stop_managed, unmanage, remove_loaded, prior_state,
  remove,
}

-- The computation returns without an error.
record Always (m : World → Result (Unit {0}) × World) : Type 0 where
  at : (w : World) → (m w).0 ≡ ok tt

Always-pure : Always (pure tt)
Always-pure = record { at = λ w. refl }

Always-best_effort : (m : Exec (Unit {0})) → Always (best_effort m)
Always-best_effort m = record { at = λ w. refl }

Always-then : (m n : Exec (Unit {0})) → Always m → Always n → Always (m >> n)
Always-then m n hm hn = record { at = λ w. rw (hm.at w) (hn.at (m w).1) }

Always-if : (b : Bool) (m n : Exec (Unit {0})) → Always m → Always n → Always (if b then m else n)
Always-if true m n hm hn = hm
Always-if false m n hm hn = hn

Always-each :
    (f : String → Exec (Unit {0})) (xs : List String)
    → ((x : String) → Always (f x))
    → Always (each f xs)
unfolding each
Always-each f [] h = record { at = λ w. refl }
Always-each f (x ∷ xs) h = record { at = λ w. rw ((h x).at w) ((Always-each f xs h).at (f x w).1) }

ruleset always_rules = (Always-pure, Always-best_effort, Always-then, Always-if, Always-each)

lookup-without : (path : String) (m : Dict StateFile) → lookup path (without path m) ≡ none
lookup-without path [] = refl
lookup-without path ((k, file) ∷ m) = ground (arith, lookup-without path m)

module _ (env : Env) where
  try_user-Always : (o : Ops) (argv : List String) → Always (try_user env o argv)
  unfolding try_user
  try_user-Always o argv = record { at = λ w. refl }

  unmanage-Always : (name : String) (prior : State) → Always (unmanage env name prior)
  unfolding unmanage stop_managed
  unmanage-Always name prior = search (always_rules, try_user-Always) depth 10

  prior_state-err :
      (name e : String) (w : World)
      → state_at env (state_path env name) w ≡ err e
      → (purge : Bool) → ((prior_state env name >>= remove_loaded env name purge) w).1 ≡ w
  unfolding prior_state
  prior_state-err name e w h purge = rw h refl

  remove_invalid :
      (name : String) (purge : Bool) (w : World)
      → valid_name name ≡ false
      → (remove env name purge w).1 ≡ w
  unfolding remove
  remove_invalid name purge w h = rw h refl

  remove_unreadable :
      (name : String) (purge : Bool) (w : World) (e : String)
      → state_at env (state_path env name) w ≡ err e
      → (remove env name purge w).1 ≡ w
  unfolding remove
  remove_unreadable name purge w e h = elim (Bool-cases (valid_name name)) [
    | inl v ↦ rw v (prior_state-err name e w h purge)
    | inr v ↦ rw v refl
  ]

  -- Removing a cadre whose name is invalid or whose state file cannot be read runs no command and
  -- leaves every state file as it was, with and without purge.
  remove-rejects :
      (name : String) (purge : Bool) (w : World)
      → (valid_name name ≡ false) ⊎ ((e : String) × (state_at env (state_path env name) w ≡ err e))
      → (remove env name purge w).1 ≡ w
  remove-rejects name purge w (inl v) = remove_invalid name purge w v
  remove-rejects name purge w (inr (e, h)) = remove_unreadable name purge w e h

  drop_state-lookup :
      (path : String) (w : World)
      → ((trace : List Command) (c : Command) → failed (env.answer trace c) ≡ false)
      → ((drop_state env path w).0 ≡ ok tt) × (lookup path (drop_state env path w).1.states ≡ none)
  unfolding drop_state run
  drop_state-lookup path w works = rw works (refl, lookup-without path w.states)

  after_unmanage :
      (name : String) (prior : State) (w : World)
      → ((trace : List Command) (c : Command) → failed (env.answer trace c) ≡ false)
      → ((remove_loaded env name false prior w).0 ≡ ok tt)
        × (lookup (state_path env name) (remove_loaded env name false prior w).1.states ≡ none)
  unfolding remove_loaded
  after_unmanage name prior w works =
      let (returns, gone) =
        drop_state-lookup (state_path env name) (unmanage env name prior w).1 works in
      rw ((unmanage-Always name prior).at w, returns) (refl, gone)

  -- On a host where every command succeeds, removing a cadre with a valid name and a readable state
  -- returns no error, and the state file is gone.
  pub remove-unmanages :
      (name : String) (w : World) (prior : State)
      → valid_name name ≡ true
      → state_at env (state_path env name) w ≡ ok prior
      → ((trace : List Command) (c : Command) → failed (env.answer trace c) ≡ false)
      → ((remove env name false w).0 ≡ ok tt)
        × (lookup (state_path env name) (remove env name false w).1.states ≡ none)
  unfolding remove prior_state
  remove-unmanages name w prior v h works = rw (v, h) (after_unmanage name prior w works)
