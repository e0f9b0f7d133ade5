-- ===== src/Cli/Clean.antt =====
-- No parser of the arguments takes a flag for a name.
use rucher.Cli.{
  not_positive, unknown_flag, needs_value, single_name, no_name, Parsed, parsed, problem, Command,
  apply, new, status, logs, rm, age_recipient, node_init, node_recipient, agent_run, agent_install,
  init, validate, plan, keygen, nodes_status, net_join, nodes_deploy, secrets_encrypt, is_flag,
}
use rucher.Base.Int.{pos, int_ltb}
use rucher.Base.Decimal.{atoi}
use rucher.Cli.Dispatch.{when◌then◌else◌, when◌then◌else◌}
use rucher.Cli.Parse.{
  status_from, status_concurrency, status_word, and_then, StatusFlags, parse_rm_from,
  parse_dir_from,
}
use rucher.Base.{
  all, ◌≡◌, ◌==◌, ◌∷◌, ◌++◌, refl, inl, inr, Bool, true, false, not, none, some, String, List, [],
  arith, if◌then◌else◌, string_eq, nat_eq, Bool-cases,
}

-- the names of cadres and nodes that a command has from a list of arguments
abbrev pub names_of : Command → List String
names_of (apply dir names) = names
names_of (status names) = names
names_of (rm name purge) = name ∷ []
names_of (init dir name) = name ∷ []
names_of (validate dir names) = names
names_of (plan dir names) = names
names_of (nodes_status dir names live json n) = names
names_of (new name) = name ∷ []
names_of (logs name unit) = name ∷ []
names_of (age_recipient name) = name ∷ []
names_of node_init = []
names_of node_recipient = []
names_of (agent_run path) = []
names_of (agent_install path) = []
names_of (keygen args) = []
names_of (net_join dir args) = []
names_of (nodes_deploy dir args) = []
names_of (secrets_encrypt args) = []

-- the commands that take their one name as it stands, whatever it is
abbrev pub takes_any : Command → Bool
takes_any (new name) = true
takes_any (logs name unit) = true
takes_any (age_recipient name) = true
takes_any (apply dir names) = false
takes_any (status names) = false
takes_any (rm name purge) = false
takes_any (init dir name) = false
takes_any (validate dir names) = false
takes_any (plan dir names) = false
takes_any (nodes_status dir names live json n) = false
takes_any node_init = false
takes_any node_recipient = false
takes_any (agent_run path) = false
takes_any (agent_install path) = false
takes_any (keygen args) = false
takes_any (net_join dir args) = false
takes_any (nodes_deploy dir args) = false
takes_any (secrets_encrypt args) = false

abbrev pub no_flags : List String → Bool
no_flags names = all (λ n. not (is_flag n)) names

-- what a parser returned has no flag among its names
abbrev pub Clean {ℓ} : {A : Type ℓ} → (A → List String) → Parsed A → Type 0
Clean f (parsed a) = no_flags (f a) ≡ true
Clean f (problem p) = Unit

pub Clean-if {ℓ} :
    {A : Type ℓ} (f : A → List String) (b : Bool) (x y : Parsed A)
    → Clean f x
    → (b ≡ false → Clean f y)
    → Clean f (if b then x else y)
Clean-if f true x y hx hy = hx
Clean-if f false x y hx hy = hy refl

pub no_flags-append :
    (names : List String) (a : String)
    → no_flags names ≡ true
    → is_flag a ≡ false
    → no_flags (names ++ a ∷ []) ≡ true
no_flags-append [] a h f = rw f refl
no_flags-append (n ∷ names) a h f = ground (arith, h, f, no_flags-append names a)

abbrev pub second : String × List String → List String
second p = p.1

pub parse_dir_from-Clean :
    (dir : String) (names args : List String)
    → no_flags names ≡ true
    → Clean second (parse_dir_from dir names args)
unfolding parse_dir_from
parse_dir_from-Clean dir names [] h = h
parse_dir_from-Clean dir names (a ∷ []) h =
    Clean-if second (a == "--dir") (problem (needs_value "--dir")) _ tt (λ d.
      Clean-if second (is_flag a) (problem (unknown_flag a)) (parsed (dir, names ++ a ∷ [])) tt
        (λ f. no_flags-append names a h f))
parse_dir_from-Clean dir names (a ∷ b ∷ args) h =
    Clean-if second (a == "--dir") (parse_dir_from b names args) _
      (parse_dir_from-Clean b names args h)
      (λ d.
        Clean-if second (is_flag a) (problem (unknown_flag a))
          (parse_dir_from dir (names ++ a ∷ []) (b ∷ args)) tt
          (λ f.
            parse_dir_from-Clean dir (names ++ a ∷ []) (b ∷ args) (no_flags-append names a h f)))

abbrev pub name_first : String × Bool → List String
name_first p = p.0 ∷ []

pub parse_rm_from-Clean :
    (name : String) (purge : Bool) (args : List String)
    → is_flag name ≡ false
    → Clean name_first (parse_rm_from name purge args)
unfolding parse_rm_from
parse_rm_from-Clean name purge [] h =
    Clean-if name_first (name == "") (problem no_name) (parsed (name, purge)) tt (λ e. rw h refl)
parse_rm_from-Clean name purge (a ∷ args) h =
    Clean-if name_first (a == "--purge") (parse_rm_from name true args) _
      (parse_rm_from-Clean name true args h)
      (λ e. Clean-if name_first (is_flag a) (problem (unknown_flag a)) _ tt (λ f.
        Clean-if name_first (not (name == "")) (problem single_name) (parse_rm_from a purge args) tt
          (λ g. parse_rm_from-Clean a purge args f)))

abbrev pub status_names : StatusFlags → List String
status_names f = f.names

and_then-Clean {ℓ κ} :
    {A : Type ℓ} {B : Type κ} (f : A → List String) (g : B → List String) (p : Parsed A)
    (k : A → Parsed B)
    → Clean f p
    → ((a : A) → no_flags (f a) ≡ true → Clean g (k a))
    → Clean g (and_then p k)
and_then-Clean f g (parsed a) k h c = c a h
and_then-Clean f g (problem e) k h c = tt

status_word-Clean :
    (f : StatusFlags) (a : String) → no_flags f.names ≡ true → Clean status_names (status_word f a)
unfolding status_word
status_word-Clean f a h =
    Clean-if status_names (a == "--live") (parsed (record f { live = true })) _ h (λ l.
      Clean-if status_names (a == "--json") (parsed (record f { json = true })) _ h (λ j.
        Clean-if status_names (is_flag a) (problem (unknown_flag a)) _ tt
          (λ n. no_flags-append f.names a h n)))

status_concurrency-Clean :
    (f : StatusFlags) (v : String)
    → no_flags f.names ≡ true
    → Clean status_names (status_concurrency f v)
unfolding status_concurrency
status_concurrency-Clean f v h =
    elim (atoi v)
      as (λ r. Clean status_names (elim r [
        | none ↦ problem not_positive
        | some n ↦
            if int_ltb n (pos 1)
            then problem not_positive
            else parsed (record f { concurrency = n })
      ])) [
        | none ↦ tt
        | some n ↦ Clean-if status_names (int_ltb n (pos 1)) (problem not_positive) _ tt (λ e. h)
      ]

pub status_from-Clean :
    (f : StatusFlags) (args : List String)
    → no_flags f.names ≡ true
    → Clean status_names (status_from f args)
unfolding status_from
status_from-Clean f [] h = h
status_from-Clean f (a ∷ []) h =
    Clean-if status_names (a == "--concurrency") (problem (needs_value "--concurrency")) _ tt
      (λ e. status_word-Clean f a h)
status_from-Clean f (a ∷ b ∷ args) h = elim (Bool-cases (a == "--concurrency")) [
  | inl e ↦
      rw (e, status_from)
        (and_then-Clean status_names status_names (status_concurrency f b) (λ g. status_from g args)
          (status_concurrency-Clean f b h) (λ g k. status_from-Clean g args k))
  | inr e ↦
      rw (e, status_from)
        (and_then-Clean status_names status_names (status_word f a) (λ g. status_from g (b ∷ args))
          (status_word-Clean f a h) (λ g k. status_from-Clean g (b ∷ args) k))
]
