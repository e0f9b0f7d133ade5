-- ===== src/Cli/Parse.antt =====
-- The parsers of the arguments in cmd/rucher/main.go and cmd/rucher/netcmd.go.
use rucher.Base.Text.{trim_space}
use rucher.Base.Decimal.{atoi}
use rucher.Base.Int.{pos, int_ltb, ℤ}
use rucher.Cli.{
  blank_address, single_name, no_address, unexpected, unknown_flag, not_positive, is_flag, no_name,
  needs_value, problem, parsed, Parsed,
}
use rucher.Base.{
  ◌==◌, ◌∷◌, ◌++◌, Bool, true, false, not, Option, none, some, String, List, [], if◌then◌else◌,
  string_eq, nat_eq,
}

-- the loop of parseDir
unfoldable pub parse_dir_from : String → List String → List String → Parsed (String × List String)
parse_dir_from dir names [] = parsed (dir, names)
parse_dir_from dir names (a ∷ []) =
    if a == "--dir"
    then problem (needs_value "--dir")
    else if is_flag a
    then problem (unknown_flag a)
    else parsed (dir, names ++ a ∷ [])
parse_dir_from dir names (a ∷ b ∷ args) =
    let behind = parse_dir_from b names args in
    let next = parse_dir_from dir (names ++ a ∷ []) (b ∷ args) in
    if a == "--dir" then behind else if is_flag a then problem (unknown_flag a) else next

unfoldable pub parse_dir : List String → Parsed (String × List String)
unfolding parse_dir_from
parse_dir args = parse_dir_from "./cadres" [] args

-- the loop of parseRm, and what stands behind it
unfoldable pub parse_rm_from : String → Bool → List String → Parsed (String × Bool)
parse_rm_from name purge [] = if name == "" then problem no_name else parsed (name, purge)
parse_rm_from name purge (a ∷ args) =
    let purged = parse_rm_from name true args in
    let named = parse_rm_from a purge args in
    if a == "--purge"
    then purged
    else if is_flag a
    then problem (unknown_flag a)
    else if not (name == "")
    then problem single_name
    else named

unfoldable pub parse_rm : List String → Parsed (String × Bool)
unfolding parse_rm_from
parse_rm args = parse_rm_from "" false args

-- parseAgentConfig
unfoldable pub parse_agent_config : List String → Parsed String
parse_agent_config [] = parsed "/etc/rucher/agent.yml"
parse_agent_config (a ∷ args) =
    if not (a == "--config")
    then (if is_flag a then problem (unknown_flag a) else problem (unexpected a))
    else config_value args
  where
    config_value : List String → Parsed String
    config_value [] = problem (needs_value "--config")
    config_value (v ∷ []) = if v == "" then problem (needs_value "--config") else parsed v
    config_value (v ∷ x ∷ rest) =
        if v == "" then problem (needs_value "--config") else problem (unexpected x)

pub record Join : Type 0 where
  pub node : String
  pub address : Option String
  pub json : Bool

-- behind the loop of parseNetJoin; no address is `haveAddress` unset
unfoldable pub finish_join : Join → Parsed (String × String × Bool)
finish_join j = if j.node == "" then problem no_name else elim j.address [
  | none ↦ problem no_address
  | some a ↦
      if trim_space a == "" then problem blank_address else parsed (j.node, trim_space a, j.json)
]

-- an argument of parseNetJoin that is not `--address`
unfoldable pub join_word : Join → String → Parsed Join
join_word j a =
    if a == "--json"
    then parsed (record j { json = true })
    else if is_flag a
    then problem (unknown_flag a)
    else if not (j.node == "")
    then problem (unexpected a)
    else parsed (record j { node = a })

abbrev pub and_then {ℓ κ} : {A : Type ℓ} {B : Type κ} → Parsed A → (A → Parsed B) → Parsed B
and_then (parsed a) f = f a
and_then (problem p) f = problem p

-- the loop of parseNetJoin
unfoldable pub join_from : Join → List String → Parsed Join
join_from j [] = parsed j
join_from j (a ∷ []) = if a == "--address" then problem (needs_value "--address") else join_word j a
join_from j (a ∷ b ∷ args) = elim (a == "--address") [
  | true ↦ join_from (record j { address = some b }) args
  | false ↦ and_then (join_word j a) (λ k. join_from k (b ∷ args))
]

unfoldable pub parse_net_join : List String → Parsed (String × String × Bool)
parse_net_join args =
    and_then (join_from (record { node = ""; address = none; json = false }) args) finish_join

pub record StatusFlags : Type 0 where
  pub live : Bool
  pub json : Bool
  pub concurrency : ℤ
  pub names : List String

-- an argument of `ops nodes status` that is not `--concurrency`
unfoldable pub status_word : StatusFlags → String → Parsed StatusFlags
status_word f a =
    if a == "--live"
    then parsed (record f { live = true })
    else if a == "--json"
    then parsed (record f { json = true })
    else if is_flag a
    then problem (unknown_flag a)
    else parsed (record f { names = f.names ++ a ∷ [] })

unfoldable pub status_concurrency : StatusFlags → String → Parsed StatusFlags
status_concurrency f v = elim (atoi v) [
  | none ↦ problem not_positive
  | some n ↦
      if int_ltb n (pos 1) then problem not_positive else parsed (record f { concurrency = n })
]

-- the loop over the arguments of `ops nodes status`
unfoldable pub status_from : StatusFlags → List String → Parsed StatusFlags
status_from f [] = parsed f
status_from f (a ∷ []) =
    if a == "--concurrency" then problem (needs_value "--concurrency") else status_word f a
status_from f (a ∷ b ∷ args) = elim (a == "--concurrency") [
  | true ↦ and_then (status_concurrency f b) (λ g. status_from g args)
  | false ↦ and_then (status_word f a) (λ g. status_from g (b ∷ args))
]
