-- ===== src/Cli/DeployFlags.antt =====
-- What the flags of `ops nodes deploy` satisfy when they are accepted.
use rucher.Base.Decimal.{atoi}
use mathlib.Core.Path.{subst}
use rucher.Cli.{binary_and_version, podman_not_prebuilt}
use rucher.Cli.Parse.{and_then}
use rucher.Cli.Clean.{no_flags, no_flags-append}
use rucher.Base.Dict.{lookup, Dict}
use rucher.Cli.Deploy.{
  default_flags, parse_deploy, check_flags, value_flag, switch_flag, takes_value, deploy_from,
  deploy_concurrency, deploy_word, switch_flags, value_flags, DeployFlags,
}
use rucher.Cli.{Parsed, parsed, problem, is_flag}
use rucher.Base.Int.{ℤ, pos, int_ltb}
use rucher.Base.{
  ◌≡◌, ◌==◌, ◌&&◌, ◌||◌, ◌∷◌, refl, inl, inr, Bool, true, false, not, Option, none, some, String,
  List, [], arith, if◌then◌else◌, string_eq, nat_eq, Bool-cases, Option-cases,
}

-- What every accepted line of flags satisfies while it is read.
record IsSound (df : DeployFlags) : Type 0 where
  names : no_flags df.names ≡ true
  positive : int_ltb df.concurrency (pos 1) ≡ false

abbrev Sound : Parsed DeployFlags → Type 0
Sound (parsed df) = IsSound df
Sound (problem p) = Unit

abbrev Keeps : (DeployFlags → DeployFlags) → Type 0
Keeps f = (df : DeployFlags) → IsSound df → IsSound (f df)

same-IsSound :
    (df dg : DeployFlags)
    → dg.names ≡ df.names
    → dg.concurrency ≡ df.concurrency
    → IsSound df
    → IsSound dg
same-IsSound df dg n c h = record { names = rw n (h.names); positive = rw c (h.positive) }

module _ {V : Type 0} (P : V → Type 0) where
  abbrev AllValues : Dict V → Type 0
  AllValues [] = Unit
  AllValues ((k, v) ∷ m) = P v × AllValues m

  lookup-AllValues : (k : String) (m : Dict V) (v : V) → AllValues m → lookup k m ≡ some v → P v
  lookup-AllValues k [] v all e = absurd (cc e)
  lookup-AllValues k ((j, u) ∷ m) v all e = elim (Bool-cases (j == k)) [
    | inl same ↦ subst P (let f : some u ≡ some v = rw same at e in cc f) all.0
    | inr other ↦ lookup-AllValues k m v all.1 (rw other at e)
  ]

value_flags-Keeps : AllValues (λ f. (v : String) → Keeps (f v)) value_flags
value_flags-Keeps = (
  λ v df h. record { names = h.names; positive = h.positive },
  (
    λ v df h. record { names = h.names; positive = h.positive },
    (
      λ v df h. record { names = h.names; positive = h.positive },
      (
        λ v df h. record { names = h.names; positive = h.positive },
        (
          λ v df h. record { names = h.names; positive = h.positive },
          (
            λ v df h. record { names = h.names; positive = h.positive },
            (
              λ v df h. record { names = h.names; positive = h.positive },
              (
                λ v df h. record { names = h.names; positive = h.positive },
                (
                  λ v df h. record { names = h.names; positive = h.positive },
                  (
                    λ v df h. record { names = h.names; positive = h.positive },
                    (
                      λ v df h. record { names = h.names; positive = h.positive },
                      (
                        λ v df h. record { names = h.names; positive = h.positive },
                        (
                          λ v df h. record { names = h.names; positive = h.positive },
                          (
                            λ v df h. record { names = h.names; positive = h.positive },
                            (
                              λ v df h. record { names = h.names; positive = h.positive },
                              (
                                λ v df h. record { names = h.names; positive = h.positive },
                                (λ v df h. record { names = h.names; positive = h.positive }, tt),
                              ),
                            ),
                          ),
                        ),
                      ),
                    ),
                  ),
                ),
              ),
            ),
          ),
        ),
      ),
    ),
  ),
)

switch_flags-Keeps : AllValues Keeps switch_flags
switch_flags-Keeps = (
  λ df h. record { names = h.names; positive = h.positive },
  (
    λ df h. record { names = h.names; positive = h.positive },
    (
      λ df h. record { names = h.names; positive = h.positive },
      (
        λ df h. record { names = h.names; positive = h.positive },
        (λ df h. record { names = h.names; positive = h.positive }, tt),
      ),
    ),
  ),
)

deploy_word-Sound :
    (df : DeployFlags) (a : String) (r : Option (DeployFlags → DeployFlags))
    → switch_flag a ≡ r
    → IsSound df
    → Sound (deploy_word df a r)
unfolding deploy_word switch_flag
deploy_word-Sound df a (some switch) e h =
    lookup-AllValues Keeps a switch_flags switch switch_flags-Keeps e df h
deploy_word-Sound df a none e h = elim (Bool-cases (is_flag a)) [
  | inl f ↦ rw f tt
  | inr f ↦ rw f (record { names = no_flags-append df.names a h.names f; positive = h.positive })
]

deploy_concurrency-Sound :
    (df : DeployFlags) (n : Option ℤ) → IsSound df → Sound (deploy_concurrency df n)
unfolding deploy_concurrency
deploy_concurrency-Sound df none h = tt
deploy_concurrency-Sound df (some n) h = elim (Bool-cases (int_ltb n (pos 1))) [
  | inl f ↦ rw f tt
  | inr f ↦ rw f (record { names = h.names; positive = f })
]

and_then-Sound :
    (p : Parsed DeployFlags) (k : DeployFlags → Parsed DeployFlags)
    → Sound p
    → ((df : DeployFlags) → IsSound df → Sound (k df))
    → Sound (and_then p k)
and_then-Sound (parsed df) k h c = c df h
and_then-Sound (problem e) k h c = tt

value_flag-Keeps :
    (a : String) (set : String → DeployFlags → DeployFlags) (v : String) (df : DeployFlags)
    → value_flag a ≡ some set
    → IsSound df
    → IsSound (set v df)
unfolding value_flag
value_flag-Keeps a set v df e h =
    lookup-AllValues (λ f. (u : String) → Keeps (f u)) a value_flags set value_flags-Keeps e v df h

deploy_from-Sound :
    (df : DeployFlags) (args : List String) → IsSound df → Sound (deploy_from df args)
unfolding deploy_from
deploy_from-Sound df [] h = h
deploy_from-Sound df (a ∷ []) h = elim (Bool-cases (takes_value a)) [
  | inl t ↦ rw (t, deploy_from) tt
  | inr t ↦ rw (t, deploy_from) (deploy_word-Sound df a (switch_flag a) refl h)
]
deploy_from-Sound df (a ∷ b ∷ args) h = elim (Option-cases (value_flag a)) [
  | inl e ↦
      rw (e, deploy_from)
        (elim (Bool-cases (a == "--concurrency")) [
          | inl c ↦ rw c (
              and_then-Sound (deploy_concurrency df (atoi b)) (λ g. deploy_from g args)
                (deploy_concurrency-Sound df (atoi b) h) (λ g k. deploy_from-Sound g args k))
          | inr c ↦ rw c (
              and_then-Sound (deploy_word df a (switch_flag a)) (λ g. deploy_from g (b ∷ args))
                (deploy_word-Sound df a (switch_flag a) refl h)
                (λ g k. deploy_from-Sound g (b ∷ args) k))
        ])
  | inr (set, e) ↦
      rw (e, deploy_from) (deploy_from-Sound (set b df) args (value_flag-Keeps a set b df e h))
]

-- what parseDeploy promises of the flags that it accepts
pub record IsAccepted (df : DeployFlags) : Type 0 where
  pub names : no_flags df.names ≡ true
  pub positive : int_ltb df.concurrency (pos 1) ≡ false
  pub one_source : (df.binary_path == "" || df.version == "") ≡ true
  pub pinned : (df.podman_version == "" || df.podman_prebuilt) ≡ true

abbrev Accepted : Parsed DeployFlags → Type 0
Accepted (parsed df) = IsAccepted df
Accepted (problem p) = Unit

checked-Accepted :
    (df : DeployFlags) (x y : Bool)
    → IsSound df
    → (not (df.binary_path == "") && not (df.version == "")) ≡ x
    → (not (df.podman_version == "") && not df.podman_prebuilt) ≡ y
    → Accepted (
        if x
        then problem binary_and_version
        else if y
        then problem podman_not_prebuilt
        else parsed df)
checked-Accepted df true y h ex ey = tt
checked-Accepted df false true h ex ey = tt
checked-Accepted df false false h ex ey = record {
  names = h.names;
  positive = h.positive;
  one_source = ground arith;
  pinned = ground arith;
}

check_flags-Accepted : (p : Parsed DeployFlags) → Sound p → Accepted (and_then p check_flags)
unfolding check_flags
check_flags-Accepted (parsed df) h = checked-Accepted df _ _ h refl refl
check_flags-Accepted (problem e) h = tt

accepted : (p : Parsed DeployFlags) (df : DeployFlags) → Accepted p → p ≡ parsed df → IsAccepted df
accepted p df h e = rw e at h

-- The flags that are accepted have no flag among the node names, at least one node at a time, a binary or a
-- release version but not both, and a podman version only with the prebuilt podman.
pub parse_deploy-IsAccepted :
    (args : List String) (df : DeployFlags) → parse_deploy args ≡ parsed df → IsAccepted df
unfolding parse_deploy
parse_deploy-IsAccepted args df e =
    accepted (parse_deploy args) df
      (check_flags-Accepted (deploy_from default_flags args)
        (deploy_from-Sound default_flags args (record { names = refl; positive = refl })))
      e
