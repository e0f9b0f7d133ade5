-- ===== src/Cli/Dispatch.antt =====
-- The dispatch of cmd/rucher/main.go.
use rucher.Cli.{
  unknown_flag, Parsed, parsed, problem, Usage, whole, node_side, ops_side, key_line, agent_line,
  cadre_line, new_line, logs_line, recipient_line, init_line, seal_line, secrets_line, nodes_line,
  Command, apply, new, status, logs, rm, age_recipient, node_init, node_recipient, agent_run,
  agent_install, init, validate, plan, keygen, nodes_status, net_join, nodes_deploy,
  secrets_encrypt, Action, command, show, refuse, unknown, apply_all_only, apply_needs_name,
  is_flag,
}
use rucher.Base.Int.{pos}
use rucher.Cli.Parse.{parse_rm, parse_agent_config, status_from, parse_dir}
use rucher.Base.{
  is_empty, ◌==◌, ◌&&◌, ◌||◌, ◌∷◌, Bool, true, false, not, Option, none, some, String, List, [],
  if◌then◌else◌, string_eq, nat_eq,
}

-- the conditional of the dispatch: it stays closed until a proof opens it
infix 1 when◌then◌else◌
unfoldable pub when◌then◌else◌ : Bool → Action → Action → Action
when true then x else y = x
when false then x else y = y

unfoldable pub is_help_flag : String → Bool
is_help_flag a = a == "-h" || a == "--help" || a == "help"

abbrev pub answered {ℓ} : {A : Type ℓ} → Parsed A → (A → Action) → Action
answered (parsed a) f = f a
answered (problem p) f = refuse p 2

unfoldable pub first_flag : List String → Option String
first_flag [] = none
first_flag (a ∷ args) = let rest = first_flag args in if is_flag a then some a else rest

unfoldable pub one_name : Usage → (String → Command) → List String → Action
one_name u c [] = show u 2
one_name u c (name ∷ []) = command (c name)
one_name u c (name ∷ x ∷ args) = show u 2

unfoldable pub two_names : List String → Action
two_names [] = show logs_line 2
two_names (name ∷ []) = show logs_line 2
two_names (name ∷ unit ∷ []) = command (logs name unit)
two_names (name ∷ unit ∷ x ∷ args) = show logs_line 2

-- the case "status" of runNodeCadre, by the first flag among the names
unfoldable pub show_status : List String → Option String → Action
show_status args (some a) = refuse (unknown_flag a) 2
show_status args none = command (status args)

-- the cases of runNodeCadre
unfoldable pub cadre_verb : String → List String → Action
cadre_verb verb args =
    when verb == "new"
    then one_name new_line new args
    else when verb == "apply"
    then answered (parse_dir args)
        (λ p. when is_empty p.1 then apply_needs_name 2 else command (apply p.0 p.1))
    else when verb == "status"
    then show_status args (first_flag args)
    else when verb == "logs"
    then two_names args
    else when verb == "rm"
    then answered (parse_rm args) (λ p. command (rm p.0 p.1))
    else when verb == "recipient"
    then one_name recipient_line age_recipient args
    else unknown verb 2

unfoldable pub run_node_cadre : List String → Action
run_node_cadre [] = show cadre_line 2
run_node_cadre (verb ∷ args) =
    when is_help_flag verb then show cadre_line 0 else cadre_verb verb args

-- the case "key" of runNode
unfoldable pub node_key : List String → Action
node_key [] = show key_line 2
node_key (verb ∷ []) =
    when is_help_flag verb
    then show key_line 0
    else when verb == "init"
    then command node_init
    else when verb == "show"
    then command node_recipient
    else unknown verb 2
node_key (verb ∷ x ∷ args) = when is_help_flag verb then show key_line 0 else show key_line 2

-- the case "agent" of runNode
unfoldable pub node_agent : List String → Action
node_agent [] = show agent_line 2
node_agent (verb ∷ args) =
    when is_help_flag verb
    then show agent_line 0
    else when not (verb == "run") && not (verb == "install")
    then unknown verb 2
    else answered (parse_agent_config args)
        (λ path. command (if verb == "install" then agent_install path else agent_run path))

unfoldable pub node_verb : String → List String → Action
node_verb verb args =
    when verb == "apply"
    then answered (parse_dir args)
        (λ p. when is_empty p.1 then command (apply p.0 []) else apply_all_only 2)
    else when verb == "cadre"
    then run_node_cadre args
    else when verb == "key"
    then node_key args
    else when verb == "agent"
    then node_agent args
    else unknown verb 2

unfoldable pub run_node : List String → Action
run_node [] = show whole 2
run_node (verb ∷ args) = when is_help_flag verb then show node_side 0 else node_verb verb args

-- the case "key" of runOps
unfoldable pub ops_key : List String → Action
ops_key [] = show seal_line 2
ops_key (verb ∷ args) =
    when is_help_flag verb
    then show seal_line 0
    else when verb == "seal"
    then command (keygen args)
    else show seal_line 2

unfoldable pub run_ops_secrets : List String → Action
run_ops_secrets [] = show secrets_line 2
run_ops_secrets (verb ∷ args) =
    when is_help_flag verb
    then show secrets_line 0
    else when verb == "encrypt"
    then command (secrets_encrypt args)
    else show secrets_line 2

unfoldable pub nodes_verb : String → String → List String → Action
nodes_verb dir verb args =
    when is_help_flag verb
    then show nodes_line 0
    else when verb == "status"
    then answered
        (status_from (record { live = false; json = false; concurrency = pos 8; names = [] }) args)
        (λ f. command (nodes_status dir f.names f.live f.json f.concurrency))
    else when verb == "join"
    then command (net_join dir args)
    else when verb == "deploy"
    then command (nodes_deploy dir args)
    else unknown verb 2

unfoldable pub nodes_in : String → List String → Action
nodes_in dir [] = show nodes_line 2
nodes_in dir (verb ∷ args) = nodes_verb dir verb args

-- runOpsNodes
unfoldable pub run_ops_nodes : List String → Action
run_ops_nodes [] = nodes_in "./nodes" []
run_ops_nodes (flag ∷ []) = nodes_in "./nodes" (flag ∷ [])
run_ops_nodes (flag ∷ dir ∷ args) =
    when flag == "--dir" then nodes_in dir args else nodes_in "./nodes" (flag ∷ dir ∷ args)

unfoldable pub only_name : String → List String → Action
only_name dir [] = show init_line 2
only_name dir (name ∷ []) = command (init dir name)
only_name dir (name ∷ x ∷ names) = show init_line 2

unfoldable pub ops_verb : String → List String → Action
ops_verb verb args =
    when verb == "init"
    then answered (parse_dir args) (λ p. only_name p.0 p.1)
    else when verb == "validate"
    then answered (parse_dir args) (λ p. command (validate p.0 p.1))
    else when verb == "plan"
    then answered (parse_dir args) (λ p. command (plan p.0 p.1))
    else when verb == "key"
    then ops_key args
    else when verb == "nodes"
    then run_ops_nodes args
    else when verb == "secrets"
    then run_ops_secrets args
    else unknown verb 2

unfoldable pub run_ops : List String → Action
run_ops [] = show whole 2
run_ops (verb ∷ args) = when is_help_flag verb then show ops_side 0 else ops_verb verb args

-- `run`
unfoldable pub run_line : List String → Action
run_line [] = show whole 2
run_line (side ∷ args) =
    when is_help_flag side
    then show whole 0
    else when side == "node"
    then run_node args
    else when side == "ops"
    then run_ops args
    else unknown side 2
