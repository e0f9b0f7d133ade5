-- ===== src/Reconcile/Twice.antt =====
-- Two applies in a row.
use rucher.Manifest.{on}
use rucher.Base.Text.{ext}
use rucher.Base.{
  All-append, is_empty, contains-append, Distinct, ◌≡◌, ◌∙◌, ◌==◌, ◌<>◌, ◌∷◌, ◌++◌, refl, sym, ap,
  inl, inr, true, false, Option, none, some, String, List, [], arith, eq_iff, string_eq, nat_eq,
  contains, All, Bool-cases,
}
use rucher.Base.Dict.{Dict, keys, lookup, keys-insert-Distinct}
use rucher.Base.Result.{◌>>=◌, Result, ok, err}
use rucher.Cadre.{file_names-append, IsFree, IsLoaded, File, Cadre, file_names, IsClassified}
use rucher.Plan.{Plan, is_empty_plan}
use rucher.Prune.{prune_files}
use rucher.Fileset.{prune_timer, prune_service, is_unit_file, is_systemd_unit, is_reserved}
use mathlib.Core.List.{append-nil}
use rucher.Host.{Env, World}
use rucher.Base.Result.{with_context}
use rucher.Secrets.{hashes, decrypt}
use rucher.Provision.{ensure_user}
use rucher.Reconcile.Apply.{apply, with_prune, secrets_at}
use rucher.Reconcile.Decide.{
  created_secrets, with_hashes, add_listed, for_create, non_empty_secrets, listed_secrets,
}
use rucher.Reconcile.Outcome.{apply-Applied, execute-nothing_failed, second_plan-is_empty}

-- a decoded map has every key once
abbrev pub DecryptsMaps : Env → Type 0
DecryptsMaps env =
    (identity sops : String) (m : Dict String)
    → env.decrypt identity sops ≡ ok m
    → Distinct (keys m)

keys-hashes : (hash : String → String) (m : Dict String) → keys (hashes hash m) ≡ keys m
unfolding hashes
keys-hashes hash [] = refl
keys-hashes hash ((k, v) ∷ m) = ap (◌∷◌ k) (keys-hashes hash m)

contains-non_empty :
    (k : String) (m : Dict String)
    → contains k (keys m) ≡ false
    → contains k (keys (non_empty_secrets m)) ≡ false
unfolding non_empty_secrets
contains-non_empty k [] h = refl
contains-non_empty k ((j, v) ∷ m) h = ground (arith, contains-non_empty k m)

non_empty-Distinct : (m : Dict String) → Distinct (keys m) → Distinct (keys (non_empty_secrets m))
unfolding non_empty_secrets
non_empty-Distinct [] d = tt
non_empty-Distinct ((k, v) ∷ m) d = ground (arith, contains-non_empty k m, non_empty-Distinct m d.1)

abbrev DistinctOk : Result (Dict String) → Type 0
DistinctOk (ok m) = Distinct (keys m)
DistinctOk (err e) = Unit

add_listed-Distinct :
    (absent k : String) (o : Option String) (r : Result (Dict String))
    → DistinctOk r
    → DistinctOk (add_listed absent k o r)
add_listed-Distinct absent k none r d = tt
add_listed-Distinct absent k (some v) (err e) d = tt
add_listed-Distinct absent k (some v) (ok m) d = keys-insert-Distinct k v m d

listed-Distinct :
    (c : Cadre) (values : Dict String) (ks : List String) → DistinctOk (listed_secrets c values ks)
unfolding listed_secrets
listed-Distinct c values [] = tt
listed-Distinct c values (k ∷ ks) =
    add_listed-Distinct _ k (lookup k values) _ (listed-Distinct c values ks)

for_create-Distinct :
    (c : Cadre) (values : Dict String) → Distinct (keys values) → DistinctOk (for_create c values)
unfolding for_create
for_create-Distinct c values d = elim (Bool-cases (is_empty c.manifest.secrets.create)) [
  | inl e ↦ rw e (non_empty-Distinct values d)
  | inr e ↦ rw e (listed-Distinct c values c.manifest.secrets.create)
]

-- the names of the prune units are new
append_two-Distinct :
    (xs : List String) (a b : String)
    → Distinct xs
    → contains a xs ≡ false
    → contains b xs ≡ false
    → (a == b) ≡ false
    → Distinct (xs ++ a ∷ b ∷ [])
append_two-Distinct [] a b d ha hb e = ground (arith, eq_iff a b, eq_iff b a)
append_two-Distinct (x ∷ xs) a b d ha hb e = ground (
  arith,
  append_two-Distinct xs a b d.1,
  contains-append x xs (a ∷ b ∷ []),
  eq_iff x a,
  eq_iff x b,
  eq_iff a x,
  eq_iff b x,
)

not-reserved :
    (fs : List File)
    → All (λ f. is_reserved f.name ≡ false) fs
    → (contains prune_service (file_names fs) ≡ false)
      × (contains prune_timer (file_names fs) ≡ false)
unfolding is_reserved
not-reserved [] h = (refl, refl)
not-reserved (f ∷ fs) h = ground (arith, not-reserved fs h.1)

-- If the cadre has distinct file names, flags true to the names and no reserved name, then
-- with its prune units added its names are distinct and its flags true to the names.
with_prune-IsLoaded : (env : Env) (c : Cadre) → IsLoaded c → IsFree c → IsLoaded (with_prune env c)
unfolding with_prune prune_files is_unit_file is_systemd_unit ext
with_prune-IsLoaded env c l free = elim (Bool-cases (on c.manifest.prune)) [
  | inl e ↦ rw e (record {
    names = rw file_names-append (
        append_two-Distinct (file_names c.files) prune_service prune_timer l.names
          (not-reserved c.files free).0 (not-reserved c.files free).1 refl);
    classified =
        All-append IsClassified c.files _ l.classified
          (record { unit = refl; systemd = refl }, (record { unit = refl; systemd = refl }, tt));
  })
  | inr e ↦ rw (e, append-nil) l
]

DistinctOk-bind {ℓ} :
    {A : Type ℓ} (r : Result A) (f : A → Result (Dict String))
    → ((a : A) → DistinctOk (f a))
    → DistinctOk (r >>= f)
DistinctOk-bind (ok a) f h = h a
DistinctOk-bind (err e) f h = tt

with_context-Distinct :
    (what : String) (r : Result (Dict String))
    → ((m : Dict String) → r ≡ ok m → Distinct (keys m))
    → DistinctOk (with_context what r)
with_context-Distinct what (ok m) h = h m refl
with_context-Distinct what (err e) h = tt

decrypt-Distinct :
    (env : Env) (identity sops : String) (w : World)
    → DecryptsMaps env
    → DistinctOk (decrypt env identity sops w)
unfolding decrypt
decrypt-Distinct env identity sops w maps =
    DistinctOk-bind (with_context "read cadre age identity" (env.read_file w.trace identity)) _ λ i.
      DistinctOk-bind (with_context ("read " <> sops) (env.read_file w.trace sops)) _
        λ t. with_context-Distinct _ (env.decrypt i t) (maps i t)

abbrev HashesOk : Result (Dict String × Dict String) → Type 0
HashesOk (ok (values, secret_hashes)) = Distinct (keys secret_hashes)
HashesOk (err e) = Unit

with_hashes-Distinct :
    (hash : String → String) (values : Dict String) (r : Result (Dict String))
    → DistinctOk r
    → HashesOk (with_hashes hash values r)
with_hashes-Distinct hash values (ok m) d = rw (keys-hashes hash m) d
with_hashes-Distinct hash values (err e) d = tt

created-Distinct :
    (hash : String → String) (c : Cadre) (r : Result (Dict String))
    → DistinctOk r
    → HashesOk (created_secrets hash c r)
created-Distinct hash c (ok values) d =
    with_hashes-Distinct hash values _ (for_create-Distinct c values d)
created-Distinct hash c (err e) d = tt

secrets_at-HashesOk :
    (env : Env) (c : Cadre) (w : World) → DecryptsMaps env → HashesOk (secrets_at env c w)
unfolding secrets_at
secrets_at-HashesOk env c w maps = elim (Bool-cases (c.sops_path == "")) [
  | inl e ↦ rw e tt
  | inr e ↦ rw e (created-Distinct env.hash c _ (decrypt-Distinct env _ c.sops_path w maps))
]

HashesOk-ok :
    (r : Result (Dict String × Dict String)) (values secret_hashes : Dict String)
    → HashesOk r
    → r ≡ ok (values, secret_hashes)
    → Distinct (keys secret_hashes)
HashesOk-ok r values secret_hashes d e = rw e at d

secrets_at-Distinct :
    (env : Env) (c : Cadre) (w : World) (values secret_hashes : Dict String)
    → DecryptsMaps env
    → secrets_at env c w ≡ ok (values, secret_hashes)
    → Distinct (keys secret_hashes)
secrets_at-Distinct env c w values secret_hashes maps h =
    HashesOk-ok _ values secret_hashes (secrets_at-HashesOk env c w maps) h

module _ (env : Env) (c : Cadre) (w : World) (p : Plan) (w1 : World) (p2 : Plan) (w2 : World) where
  -- For a cadre with distinct, unreserved file names and flags true to the names, and a
  -- decryption that returns maps: if an apply succeeds and its plan stops and disables nothing,
  -- and a second apply, whatever the host answers, succeeds with the same uid and the same
  -- secrets, then the plan of the second is empty.
  pub apply_twice :
      IsLoaded c
      → IsFree c
      → DecryptsMaps env
      → apply env c w ≡ (ok p, w1)
      → p.stop_units ≡ []
      → p.disable_units ≡ []
      → apply env c w1 ≡ (ok p2, w2)
      → (ensure_user env c.name w1).0 ≡ (ensure_user env c.name w).0
      → secrets_at env (with_prune env c) (ensure_user env c.name w1).1
        ≡ secrets_at env (with_prune env c) (ensure_user env c.name w).1
      → is_empty_plan p2 ≡ true
  apply_twice l free maps first s d second same_user same_secrets =
      let a = apply-Applied env c w p w1 first in
      let b = apply-Applied env c w1 p2 w2 second in
      let none_failed =
        execute-nothing_failed env (with_prune env c) a.uid a.values a.prior _
          (ensure_user env c.name w).1 (ap (λ (q : Plan). q.stop_units) (sym a.plan) ∙ s)
          (ap (λ (q : Plan). q.disable_units) (sym a.plan) ∙ d) a.ran in
      second_plan-is_empty env c w a b (with_prune-IsLoaded env c l free)
        (secrets_at-Distinct env (with_prune env c) _ a.values a.secret_hashes maps a.secrets)
        none_failed (cc (a.user, b.user)) (cc (a.secrets, b.secrets))
