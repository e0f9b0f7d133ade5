-- ===== src/Cli/Commands.antt =====
-- cmd/rucher/commands.go: the commands on the cadres of a directory, with their exit codes and the lines that
-- they print. `tabwriter` aligns the columns of the status; its lines stand here with their tabs.
use rucher.Base.{
  length, is_empty, ℕ, ◌<>◌, ◌∷◌, ◌++◌, Bool, true, false, not, Option, none, some, String, List,
  [], map, if◌then◌else◌, string_eq, nat_eq, contains,
}
use rucher.Base.Int.{pos}
use rucher.Base.Decimal.{itoa}
use rucher.Base.Path.{join_path}
use rucher.Base.Text.{base}
use rucher.Base.Result.{Result, ok, err}
use rucher.Agent.{DirEntry, list_states}
use rucher.Cadre.{File, Cadre}
use rucher.Cadre.Load.{Directory, Loader, load}
use rucher.Cadre.Warnings.{warnings}
use rucher.Host.{Env, World}
use rucher.Plan.{Plan}
use rucher.Plan.Compute.{compute}
use rucher.State.{empty}
use rucher.Reconcile.Apply.{apply, with_prune}
use rucher.Reconcile.Status.{UnitStatus, status}
use rucher.Fleet.Config.{Files, list_nodes, validate_merged}

-- an exit code, and the lines
abbrev pub Report : Type 0
Report = ℕ × List String

-- what happened to one of the things that a command goes over: whether it failed, and the lines
abbrev pub Step : Type 0
Step = Bool × List String

-- the subdirectories among the entries
unfoldable pub subdirs : List DirEntry → List String
subdirs [] = []
subdirs (e ∷ es) = let rest = subdirs es in if e.is_dir then e.base ∷ rest else rest

-- the loop over the requested names, with the ones so far
unfoldable pub pick : String → List String → List String → List String → Result (List String)
pick dir found seen [] = ok []
pick dir found seen (name ∷ names) =
    let rest = pick dir found (if contains name seen then seen else name ∷ seen) names in
    if not (contains name found)
    then err ("cadre \"" <> (name <> ("\" not found in " <> dir)))
    else if contains name seen
    then rest
    else elim rest [ err e ↦ err e | ok ds ↦ ok (join_path (dir ∷ name ∷ []) ∷ ds) ]

-- `discover`
unfoldable pub discover : Result (List DirEntry) → String → List String → Result (List String)
discover (err e) dir names = err e
discover (ok es) dir [] = ok (map (λ d. join_path (dir ∷ d ∷ [])) (subdirs es))
discover (ok es) dir (name ∷ names) = pick dir (subdirs es) [] (name ∷ names)

-- the code behind one more step
abbrev pub code_with : Step → Report → Report
code_with r rest = (if r.0 then 1 else rest.0, r.1 ++ rest.1)

-- A loop over all directories: a step that fails makes the exit code 1, and the next one follows.
unfoldable pub for_each {ℓ} : {W : Type ℓ} → (String → W → Step × W) → List String → W → Report × W
for_each f [] w = ((0, []), w)
for_each f (d ∷ ds) w = let rest = for_each f ds (f d w).1 in (code_with (f d w).0 rest.0, rest.1)

-- the start of a command that goes over the directories
unfoldable pub over {ℓ} :
    {W : Type ℓ} → String → Result (List String) → (List String → W → Report × W) → W → Report × W
over dir (err e) run w = ((1, ("error: " <> e) ∷ []), w)
over dir (ok []) run w = ((0, ("no cadres found in " <> dir) ∷ []), w)
over dir (ok (d ∷ ds)) run w = run (d ∷ ds) w

-- `provision.LockNode` before the rest
unfoldable pub locked : Option String → (World → Report × World) → World → Report × World
locked (some e) run w = ((1, ("error: " <> e) ∷ []), w)
locked none run w = run w

abbrev pub load_error : String → String → Step
load_error d e = (true, (base d <> (": ERROR " <> e)) ∷ [])

abbrev pub labelled : String → List String → List String
labelled label = map (λ name. label <> name)

-- the lines of `cmdPlan` for a plan
unfoldable pub plan_lines : String → Plan → List String
plan_lines name p =
    ("cadre " <> (name <> ":")) ∷ labelled "  write    " (map (λ f. f.name) p.write_files)
    ++ labelled "  remove   " p.remove_files
    ++ labelled "  secret+  " p.create_secrets
    ++ labelled "  secret-  " p.remove_secrets
    ++ labelled "  start    " p.start_units
    ++ labelled "  restart  " p.restart_units
    ++ labelled "  stop     " p.stop_units
    ++ labelled "  enable   " p.enable_units
    ++ labelled "  restart  " p.restart_systemd_units
    ++ labelled "  disable  " p.disable_units

-- the map `units` of `cmdValidate`
unfoldable pub quadlets : List File → List (String × String)
quadlets [] = []
quadlets (f ∷ fs) = let rest = quadlets fs in if f.is_unit then (f.name, f.content) ∷ rest else rest

unfoldable pub status_lines : String → List UnitStatus → List String
status_lines name = map (λ u. name <> ("\t" <> (u.unit <> ("\t" <> (u.active <> ("\t" <> u.sub))))))

-- What the commands read: the entries of a directory, the directory of a cadre, the lock of the node, and
-- what quadletlint says of units, warnings and errors.
pub record Desk : Type 0 where
  pub read_dir : String → Result (List DirEntry)
  pub directory : String → Directory
  pub lock_fault : Option String
  pub lint : List (String × String) → List String × List String

module _ (desk : Desk) (loader : Loader) (env : Env) where
  unfoldable pub plan_loaded : String → Result Cadre → Step
  plan_loaded d (err e) = load_error d e
  plan_loaded d (ok c) = (false, plan_lines c.name (compute (with_prune env c) [] empty))

  unfoldable pub plan_step : String → World → Step × World
  plan_step d w = (plan_loaded d (load loader (desk.directory d)), w)

  -- `cmdPlan`
  unfoldable pub cmd_plan : String → List String → World → Report × World
  cmd_plan dir names = over dir (discover (desk.read_dir dir) dir names) (for_each plan_step)

  unfoldable pub linted : String → Cadre → List String × List String → Step
  linted d c (warns, fatal) = (
    not (is_empty fatal),
    labelled (c.name <> ": WARN ") (warnings c)
        ++ labelled (c.name <> ": WARN ") warns
        ++ labelled (c.name <> ": ERROR ") fatal
        ++ (if is_empty fatal then (base d <> ": OK") ∷ [] else []),
  )

  unfoldable pub validate_loaded : String → Result Cadre → Step
  validate_loaded d (err e) = load_error d e
  validate_loaded d (ok c) = linted d c (desk.lint (quadlets c.files))

  unfoldable pub validate_step : String → World → Step × World
  validate_step d w = (validate_loaded d (load loader (desk.directory d)), w)

  -- `cmdValidate`
  unfoldable pub cmd_validate : String → List String → World → Report × World
  cmd_validate dir names =
      over dir (discover (desk.read_dir dir) dir names) (for_each validate_step)

  unfoldable pub applied : Cadre → Result Plan → Step
  applied c (err e) = (true, (c.name <> (": ERROR " <> e)) ∷ [])
  applied c (ok p) =
      let counts =
        itoa (pos (length p.start_units))
        <> (" restarted=" <> itoa (pos (length p.restart_units))) in
      (false, (c.name <> (": started=" <> counts)) ∷ [])

  unfoldable pub apply_loaded : String → Result Cadre → World → Step × World
  apply_loaded d (err e) w = (load_error d e, w)
  apply_loaded d (ok c) w = (applied c (apply env c w).0, (apply env c w).1)

  unfoldable pub apply_step : String → World → Step × World
  apply_step d = apply_loaded d (load loader (desk.directory d))

  -- `cmdApply`
  unfoldable pub cmd_apply : String → List String → World → Report × World
  cmd_apply dir names =
      over dir (discover (desk.read_dir dir) dir names)
        (λ ds. locked desk.lock_fault (for_each apply_step ds))

  unfoldable pub shown_status : String → Result (List UnitStatus) → Step
  shown_status name (err e) = (true, (name <> ("\tERROR\t" <> (e <> "\t"))) ∷ [])
  shown_status name (ok units) = (false, status_lines name units)

  unfoldable pub status_step : String → World → Step × World
  status_step name w = (shown_status name (status env name w).0, (status env name w).1)

  unfoldable pub status_table : Result (List String) → World → Report × World
  status_table (err e) w = ((1, ("error: " <> e) ∷ []), w)
  status_table (ok names) w =
      let t = for_each status_step names w in ((t.0.0, "CADRE\tUNIT\tACTIVE\tSUB" ∷ t.0.1), t.1)

  -- `cmdStatus`, with what a read of the directory of the state files finds
  unfoldable pub cmd_status : Option (Result (List DirEntry)) → List String → World → Report × World
  cmd_status states names = status_table (if is_empty names then list_states states else ok names)

module _ (files : Files) (nodes_dir : String) where
  unfoldable pub validated : String → Result (Unit {0}) → Step
  validated name (err e) = (true, ("node " <> (name <> (": ERROR " <> e))) ∷ [])
  validated name (ok _) = (false, ("node " <> (name <> ": OK")) ∷ [])

  unfoldable pub validate_nodes : Result (List String) → World → Report × World
  validate_nodes (err e) w = ((0, []), w)
  validate_nodes (ok names) w =
      for_each (λ n v. (validated n (validate_merged files nodes_dir n), v)) names w

  -- `validateNodeConfigs`
  unfoldable pub validate_node_configs : World → Report × World
  validate_node_configs = validate_nodes (list_nodes files nodes_dir)
