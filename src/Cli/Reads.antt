-- ===== src/Cli/Reads.antt =====
-- Every command has a line that is read as that command.
use rucher.Cli.{
  parsed, Command, apply, new, status, logs, rm, age_recipient, node_init, node_recipient,
  agent_run, agent_install, init, validate, plan, keygen, nodes_status, net_join, nodes_deploy,
  secrets_encrypt, command, is_flag,
}
use rucher.Cli.Dispatch.{
  run_line, run_node, node_verb, run_node_cadre, cadre_verb, one_name, two_names, show_status,
  first_flag, node_key, node_agent, run_ops, ops_verb, ops_key, run_ops_secrets, run_ops_nodes,
  nodes_in, nodes_verb, only_name, is_help_flag, when◌then◌else◌,
}
use rucher.Base.Int.{ℤ, pos, int_ltb}
use rucher.Base.Decimal.{atoi}
use rucher.Base.Text.{cut_prefix}
use rucher.Cli.Parse.{
  and_then, status_concurrency, parse_agent_config, StatusFlags, status_word, parse_rm_from,
  status_from, parse_rm, parse_dir, parse_dir_from,
}
use rucher.Cli.Clean.{no_flags}
use rucher.Base.{
  some, none, ◌≡◌, ◌∙◌, ◌==◌, ◌∷◌, ◌++◌, refl, sym, ap, inl, inr, Bool, true, false, String, List,
  [], arith, eq_iff, if◌then◌else◌, string_eq, nat_eq, Bool-cases,
}

abbrev option_words : Bool → String → List String
option_words b flag = if b then flag ∷ [] else []

-- a line for a command, with the text that writes a concurrency
unfoldable pub print : String → Command → List String
print digits (apply dir []) = "node" ∷ "apply" ∷ "--dir" ∷ dir ∷ []
print digits (apply dir (name ∷ names)) = "node" ∷ "cadre" ∷ "apply" ∷ "--dir" ∷ dir ∷ name ∷ names
print digits (new name) = "node" ∷ "cadre" ∷ "new" ∷ name ∷ []
print digits (status names) = "node" ∷ "cadre" ∷ "status" ∷ names
print digits (logs name unit) = "node" ∷ "cadre" ∷ "logs" ∷ name ∷ unit ∷ []
print digits (rm name purge) = "node" ∷ "cadre" ∷ "rm" ∷ name ∷ option_words purge "--purge"
print digits (age_recipient name) = "node" ∷ "cadre" ∷ "recipient" ∷ name ∷ []
print digits node_init = "node" ∷ "key" ∷ "init" ∷ []
print digits node_recipient = "node" ∷ "key" ∷ "show" ∷ []
print digits (agent_run path) = "node" ∷ "agent" ∷ "run" ∷ "--config" ∷ path ∷ []
print digits (agent_install path) = "node" ∷ "agent" ∷ "install" ∷ "--config" ∷ path ∷ []
print digits (init dir name) = "ops" ∷ "init" ∷ "--dir" ∷ dir ∷ name ∷ []
print digits (validate dir names) = "ops" ∷ "validate" ∷ "--dir" ∷ dir ∷ names
print digits (plan dir names) = "ops" ∷ "plan" ∷ "--dir" ∷ dir ∷ names
print digits (keygen args) = "ops" ∷ "key" ∷ "seal" ∷ args
print digits (nodes_status dir names live json n) =
    "ops"
      ∷ "nodes"
      ∷ "--dir"
      ∷ dir
      ∷ "status"
      ∷ "--concurrency"
      ∷ digits
      ∷ option_words live "--live"
    ++ (option_words json "--json" ++ names)
print digits (net_join dir args) = "ops" ∷ "nodes" ∷ "--dir" ∷ dir ∷ "join" ∷ args
print digits (nodes_deploy dir args) = "ops" ∷ "nodes" ∷ "--dir" ∷ dir ∷ "deploy" ∷ args
print digits (secrets_encrypt args) = "ops" ∷ "secrets" ∷ "encrypt" ∷ args

-- the commands that a line can ask for; the text is one that `Atoi` reads as the concurrency
abbrev pub IsReadable : String → Command → Type 0
IsReadable digits (apply dir names) = no_flags names ≡ true
IsReadable digits (new name) = Unit
IsReadable digits (status names) = no_flags names ≡ true
IsReadable digits (logs name unit) = Unit
IsReadable digits (rm name purge) = (is_flag name ≡ false) × ((name == "") ≡ false)
IsReadable digits (age_recipient name) = Unit
IsReadable digits node_init = Unit
IsReadable digits node_recipient = Unit
IsReadable digits (agent_run path) = (path == "") ≡ false
IsReadable digits (agent_install path) = (path == "") ≡ false
IsReadable digits (init dir name) = is_flag name ≡ false
IsReadable digits (validate dir names) = no_flags names ≡ true
IsReadable digits (plan dir names) = no_flags names ≡ true
IsReadable digits (keygen args) = Unit
IsReadable digits (nodes_status dir names live json n) =
    (no_flags names ≡ true) × (atoi digits ≡ some n) × (int_ltb n (pos 1) ≡ false)
IsReadable digits (net_join dir args) = Unit
IsReadable digits (nodes_deploy dir args) = Unit
IsReadable digits (secrets_encrypt args) = Unit

-- a word that is not a flag is none of the flags
not_flag : (a flag : String) → is_flag flag ≡ true → is_flag a ≡ false → (a == flag) ≡ false
not_flag a flag f n = elim (Bool-cases (a == flag)) [
  | inl e ↦ absurd (let g : is_flag a ≡ true = rw ((eq_iff a flag).0 e) f in cc (g, n))
  | inr e ↦ e
]

no_flags-head : (a : String) (names : List String) → no_flags (a ∷ names) ≡ true → is_flag a ≡ false
no_flags-head a names h = ground (arith, h)

no_flags-tail :
    (a : String) (names : List String) → no_flags (a ∷ names) ≡ true → no_flags names ≡ true
no_flags-tail a names h = ground (arith, h)

append_nil : (xs : List String) → xs ++ [] ≡ xs
append_nil [] = refl
append_nil (x ∷ xs) = ap (λ ys. x ∷ ys) (append_nil xs)

append_one :
    (xs : List String) (y : String) (ys : List String) → (xs ++ y ∷ []) ++ ys ≡ xs ++ y ∷ ys
append_one [] y ys = refl
append_one (x ∷ xs) y ys = ap (λ zs. x ∷ zs) (append_one xs y ys)

parse_dir_from-names :
    (dir : String) (before names : List String)
    → no_flags names ≡ true
    → parse_dir_from dir before names ≡ parsed (dir, before ++ names)
unfolding parse_dir_from cut_prefix
parse_dir_from-names dir before [] h = ap (λ ns. parsed (dir, ns)) (sym (append_nil before))
parse_dir_from-names dir before (a ∷ []) h =
    let f : is_flag a ≡ false = no_flags-head a [] h in
    rw (not_flag a "--dir" refl f, parse_dir_from) (rw f refl)
parse_dir_from-names dir before (a ∷ b ∷ names) h =
    let f : is_flag a ≡ false = no_flags-head a (b ∷ names) h in
    rw (not_flag a "--dir" refl f, parse_dir_from)
      (rw f (
        parse_dir_from-names dir (before ++ a ∷ []) (b ∷ names) (no_flags-tail a (b ∷ names) h)
        ∙ ap (λ ns. parsed (dir, ns)) (append_one before a (b ∷ names))))

-- `--dir` in front of names
parse_dir-names :
    (dir : String) (names : List String)
    → no_flags names ≡ true
    → parse_dir ("--dir" ∷ dir ∷ names) ≡ parsed (dir, names)
unfolding parse_dir parse_dir_from
parse_dir-names dir names h = parse_dir_from-names dir [] names h

parse_rm-name :
    (name : String) (purge : Bool)
    → is_flag name ≡ false
    → (name == "") ≡ false
    → parse_rm (name ∷ option_words purge "--purge") ≡ parsed (name, purge)
unfolding parse_rm parse_rm_from cut_prefix
parse_rm-name name true f e = rw (not_flag name "--purge" refl f, parse_rm_from) (rw f (rw e refl))
parse_rm-name name false f e = rw (not_flag name "--purge" refl f, parse_rm_from) (rw f (rw e refl))

status_from-names :
    (f : StatusFlags) (names : List String)
    → no_flags names ≡ true
    → status_from f names ≡ parsed (record f { names = f.names ++ names })
unfolding status_from status_word cut_prefix
status_from-names f [] h = ap (λ ns. parsed (record f { names = ns })) (sym (append_nil f.names))
status_from-names f (a ∷ []) h =
    let n : is_flag a ≡ false = no_flags-head a [] h in
    rw
      (not_flag a "--concurrency" refl n, not_flag a "--live" refl n, not_flag a "--json" refl n, n)
      refl
status_from-names f (a ∷ b ∷ names) h =
    let n : is_flag a ≡ false = no_flags-head a (b ∷ names) h in
    rw
      (
        not_flag a "--concurrency" refl n,
        not_flag a "--live" refl n,
        not_flag a "--json" refl n,
        n,
        status_from,
      )
      (status_from-names (record f { names = f.names ++ a ∷ [] }) (b ∷ names)
          (no_flags-tail a (b ∷ names) h)
        ∙ ap (λ ns. parsed (record f { names = ns })) (append_one f.names a (b ∷ names)))

status_from-live :
    (f : StatusFlags) (live : Bool) (args : List String)
    → f.live ≡ false
    → status_from f (option_words live "--live" ++ args)
      ≡ status_from (record f { live = live }) args
unfolding status_from status_word cut_prefix
status_from-live f false args e = rw (← e) refl
status_from-live f true [] e = refl
status_from-live f true (a ∷ args) e = refl

status_from-json :
    (f : StatusFlags) (json : Bool) (args : List String)
    → f.json ≡ false
    → status_from f (option_words json "--json" ++ args)
      ≡ status_from (record f { json = json }) args
unfolding status_from status_word cut_prefix
status_from-json f false args e = rw (← e) refl
status_from-json f true [] e = refl
status_from-json f true (a ∷ args) e = refl

abbrev unset : StatusFlags
unset = record { live = false; json = false; concurrency = pos 8; names = [] }

abbrev of_limit : ℤ → StatusFlags
of_limit n = record unset { concurrency = n }

status_concurrency-limit :
    (f : StatusFlags) (digits : String) (n : ℤ)
    → atoi digits ≡ some n
    → int_ltb n (pos 1) ≡ false
    → status_concurrency f digits ≡ parsed (record f { concurrency = n })
unfolding status_concurrency
status_concurrency-limit f digits n reads positive =
    rw (reads, status_concurrency) (rw positive refl)

status_from-concurrency :
    (f : StatusFlags) (digits : String) (n : ℤ) (args : List String)
    → atoi digits ≡ some n
    → int_ltb n (pos 1) ≡ false
    → status_from f ("--concurrency" ∷ digits ∷ args)
      ≡ status_from (record f { concurrency = n }) args
unfolding status_from
status_from-concurrency f digits n args reads positive =
    ap (λ p. and_then p (λ g. status_from g args))
      (status_concurrency-limit f digits n reads positive)

status_line :
    (digits : String) (n : ℤ) (live json : Bool) (names : List String)
    → atoi digits ≡ some n
    → int_ltb n (pos 1) ≡ false
    → no_flags names ≡ true
    → status_from unset (
        "--concurrency" ∷ digits ∷ option_words live "--live"
        ++ (option_words json "--json" ++ names))
      ≡ parsed (record { live = live; json = json; concurrency = n; names = names })
status_line digits n live json names reads positive h =
    status_from-concurrency unset digits n
      (option_words live "--live" ++ (option_words json "--json" ++ names)) reads positive
    ∙ (status_from-live (of_limit n) live (option_words json "--json" ++ names) refl
        ∙ (status_from-json (record (of_limit n) { live = live }) json names refl
            ∙ status_from-names (record (of_limit n) { live = live; json = json }) names h))

no_flags-first_flag : (names : List String) → no_flags names ≡ true → first_flag names ≡ none
unfolding first_flag
no_flags-first_flag [] h = refl
no_flags-first_flag (a ∷ names) h = ground (arith, h, no_flags-first_flag names)

-- The command line loses no command: for every command whose names are not flags, whose values are not empty
-- where a value is needed, and whose concurrency is at least 1, and for every text that `Atoi` reads as that
-- concurrency, there is a line with that text that is read as exactly that command.
pub run_line-print :
    (digits : String) (c : Command) → IsReadable digits c → run_line (print digits c) ≡ command c
unfolding run_line print run_node node_verb run_node_cadre cadre_verb one_name two_names show_status
    node_key node_agent run_ops ops_verb ops_key run_ops_secrets run_ops_nodes nodes_in nodes_verb
    only_name is_help_flag when◌then◌else◌ parse_agent_config
run_line-print digits (apply dir []) h = rw (parse_dir-names dir [] h) refl
run_line-print digits (apply dir (name ∷ names)) h = rw (parse_dir-names dir (name ∷ names) h) refl
run_line-print digits (new name) h = refl
run_line-print digits (status names) h = rw (no_flags-first_flag names h) refl
run_line-print digits (logs name unit) h = refl
run_line-print digits (rm name purge) h = rw (parse_rm-name name purge h.0 h.1) refl
run_line-print digits (age_recipient name) h = refl
run_line-print digits node_init h = refl
run_line-print digits node_recipient h = refl
run_line-print digits (agent_run path) h = rw h refl
run_line-print digits (agent_install path) h = rw h refl
run_line-print digits (init dir name) h = rw (parse_dir-names dir (name ∷ []) (rw h refl)) refl
run_line-print digits (validate dir names) h = rw (parse_dir-names dir names h) refl
run_line-print digits (plan dir names) h = rw (parse_dir-names dir names h) refl
run_line-print digits (keygen args) h = refl
run_line-print digits (nodes_status dir names live json n) h =
    rw (status_line digits n live json names h.1 h.2 h.0) refl
run_line-print digits (net_join dir args) h = refl
run_line-print digits (nodes_deploy dir args) h = refl
run_line-print digits (secrets_encrypt args) h = refl
