-- ===== src/Agent.antt =====
-- internal/agent/agent.go: one pass over the cadres of a node, and `List` of internal/reconcile. Writing
-- the status file is left out.
pub mod Pass
pub mod Forget
use rucher.Placement.{assigned}
use rucher.Provision.{user_name, ensure_user, must_user}
use rucher.Host.{lift, ◌>>=◌, ◌>>◌}
use rucher.Reconcile.Apply.{apply, identity_path}
use rucher.Cadre.Load.{load, Loader, Directory}
use rucher.Reconcile.Remove.{remove}
use rucher.Base.Int.{ℤ}
use rucher.Base.Path.{dir, join_path}
use rucher.Base.Dict.{Dict}
use rucher.Host.{pure, World, Env, Exec}
use rucher.Base.Text.{cut_suffix}
use rucher.Base.Result.{err, with_context, ok, Result}
use rucher.Base.{
  any, ℕ, zero, suc, ◌+◌, ◌≤◌, ◌<◌, ◌≡◌, ◌≢◌, ◌↔◌, ◌⊎◌, ◌∙◌, ◌==◌, ◌&&◌, ◌||◌, ◌<>◌, ◌∷◌, ◌++◌,
  refl, sym, ap, inl, inr, Bool, true, false, not, Option, none, some, String, List, [], map, arith,
  eq_iff, if◌then◌else◌, string_eq, nat_eq, contains, All, Bool-cases, Option-cases,
}

-- an entry of the directory of the state files
pub record DirEntry : Type 0 where
  pub base : String
  pub is_dir : Bool

-- What a pass is given from outside the program: the checkout of the store with its revision, reads of the
-- checkout, the decoders, the decryption of a sealed identity, and the directory of the state files, where
-- `none` is a directory that does not exist.
pub record Outside : Type 0 where
  pub sync : Result (String × String)
  pub read_placement : String → Result String
  pub decode_placement : String → Result (Dict (List String))
  pub read_sealed_file : String → Option (Result String)
  pub unseal : String → String → Result String
  pub cadre_dir : String → Directory
  pub loader : Loader
  pub read_state_dir : World → Option (Result (List DirEntry))

-- `Result` of the agent
pub record Outcome : Type 0 where
  pub name : String
  pub good : Bool
  pub error : String

pub record Status : Type 0 where
  pub revision : String
  pub applied : List Outcome
  pub removed : List String
  pub error : String

abbrev no_status : Status
no_status = record { revision = ""; applied = []; removed = []; error = "" }

abbrev pub reported : String → List Outcome → Status
reported rev outcomes = record no_status { revision = rev; applied = outcomes }

-- the loop of `List`
unfoldable pub state_names : List DirEntry → List String
state_names [] = []
state_names (e ∷ es) =
    let rest = state_names es in
    if e.is_dir
    then rest
    else elim (cut_suffix ".json" e.base) [ none ↦ rest | some name ↦ name ∷ rest ]

-- reconcile.List
unfoldable pub list_states : Option (Result (List DirEntry)) → Result (List String)
list_states none = ok []
list_states (some (err e)) = err e
list_states (some (ok es)) = ok (state_names es)

abbrev pub is_good : Result (Unit {0}) → Bool
is_good r = elim r [ ok u ↦ true | err e ↦ false ]

unfoldable pub outcome_of : String → Result (Unit {0}) → Outcome
outcome_of name (ok u) = record { name = name; good = true; error = "" }
outcome_of name (err e) = record { name = name; good = false; error = e }

-- the loop over the assigned cadres: a failure does not end it
unfoldable pub apply_each : (String → Exec (Unit {0})) → List String → World → List Outcome × World
apply_each f [] w = ([], w)
apply_each f (name ∷ names) w =
    let (r, w') = f name w in
    let (rest, w'') = apply_each f names w' in (outcome_of name r ∷ rest, w'')

-- the loop over the managed cadres
unfoldable pub remove_each :
    (String → Exec (Unit {0})) → List String → List String → World → List String × World
remove_each f assigned [] w = ([], w)
remove_each f assigned (name ∷ names) w = elim (contains name assigned) [
  | true ↦ remove_each f assigned names w
  | false ↦ (let (rest, w') = remove_each f assigned names (f name w).1 in (name ∷ rest, w'))
]

-- The variable `failed` is true.
abbrev pub any_failed : List Outcome → Bool
any_failed outcomes = any (λ o. not o.good) outcomes

module _ (env : Env) (out : Outside) where
  -- readSealed
  unfoldable pub read_sealed : String → Result (Option String)
  read_sealed place = elim (out.read_sealed_file (join_path (place ∷ "identity.age" ∷ []))) [
    | none ↦ ok none
    | some r ↦ elim r [ ok text ↦ ok (some text) | err e ↦ err e ]
  ]

  -- the identity is written, by the user of the cadre
  unfoldable pub write_identity : String → ℤ → String → Exec (Unit {0})
  write_identity name uid identity = do
    let path = identity_path env name
    _ ←
        must_user env (user_name name) uid ("mkdir" ∷ "-p" ∷ dir path ∷ []) none
          ("mkdir " <> (name <> " identity dir"))
    _ ←
        must_user env (user_name name) uid
          ("sh" ∷ "-c" ∷ "umask 077 && cat > \"$1\"" ∷ "sh" ∷ path ∷ []) (some identity)
          ("install " <> (name <> " identity"))
    pure tt

  unfoldable pub install_sealed : String → ℤ → String → Option String → Exec (Unit {0})
  install_sealed name uid node_identity none = pure tt
  install_sealed name uid node_identity (some sealed) = do
    identity ←
        lift (with_context ("unseal " <> (name <> " identity")) (out.unseal node_identity sealed))
    write_identity name uid identity

  unfoldable pub install_identity : String → ℤ → String → String → Exec (Unit {0})
  install_identity name uid place node_identity = do
    sealed ← lift (read_sealed place)
    install_sealed name uid node_identity sealed

  unfoldable pub apply_one : String → String → String → Exec (Unit {0})
  apply_one checkout node_identity name = do
    let place = join_path (checkout ∷ "cadres" ∷ name ∷ [])
    uid ← ensure_user env name
    install_identity name uid place node_identity
    c ← lift (load out.loader (out.cadre_dir place))
    _ ← apply env c
    pure tt

  -- reconcile.Remove(r, name, false)
  abbrev pub unmanage_cadre : String → Exec (Unit {0})
  unmanage_cadre name = remove env name false

  -- the loop over the managed cadres, and the end of `Run`
  unfoldable pub finish_pass :
      Status → List String → Result (List String) → World → (Status × Option String) × World
  finish_pass st assigned (err e) w = ((record st { error = e }, some e), w)
  finish_pass st assigned (ok managed) w =
      let (gone, w') = remove_each unmanage_cadre assigned managed w in
      (
        (
          record st { removed = gone },
          if any_failed st.applied then some "one or more cadres failed to apply" else none,
        ),
        w',
      )

  unfoldable pub pass_over :
      String → String → String → List String → World → (Status × Option String) × World
  pass_over checkout rev node_identity assigned w =
      let (outcomes, w') = apply_each (apply_one checkout node_identity) assigned w in
      finish_pass (reported rev outcomes) assigned (list_states (out.read_state_dir w')) w'

  unfoldable pub assigned_here : String → String → Result (List String)
  assigned_here checkout node_id =
      elim (with_context "read placement.yml"
        (out.read_placement (join_path (checkout ∷ "placement.yml" ∷ [])))) [
          | err e ↦ err e
          | ok text ↦ assigned out.decode_placement text node_id
        ]

  unfoldable pub over_assigned :
      String → String → String → Result (List String) → World → (Status × Option String) × World
  over_assigned checkout rev node_identity (err e) w =
      ((record no_status { revision = rev; error = e }, some e), w)
  over_assigned checkout rev node_identity (ok names) w =
      pass_over checkout rev node_identity names w

  unfoldable pub resume_pass :
      String → String → Result (String × String) → World → (Status × Option String) × World
  resume_pass node_id node_identity (err e) w = ((record no_status { error = e }, some e), w)
  resume_pass node_id node_identity (ok (checkout, rev)) w =
      over_assigned checkout rev node_identity (assigned_here checkout node_id) w

  -- `Run`: the status beside the error
  unfoldable pub run_pass : String → String → World → (Status × Option String) × World
  run_pass node_id node_identity w =
      resume_pass node_id node_identity (with_context "store sync" out.sync) w
