-- ===== src/Reconcile/Decide.antt =====
-- The decisions of `Apply` in internal/reconcile/reconcile.go that run no command: which secrets become
-- podman secrets, the plan when the uid has changed, and what stays in the state behind a failed stop.
use rucher.Base.Int.{int_eq}
use rucher.Fileset.{is_systemd_unit}
use rucher.Base.Decimal.{itoa}
use rucher.Plan.Compute.{compute}
use rucher.Base.Text.{trim_space, join}
use rucher.Plan.{Plan}
use rucher.Secrets.{hashes}
use rucher.Base.Int.{pos, ℤ}
use rucher.State.{empty, State}
use rucher.Base.Dict.{insert, lookup, Dict}
use rucher.Base.Result.{err, ok, Result}
use rucher.Cadre.{Cadre, File}
use rucher.Host.{Answer}
use rucher.Base.{
  is_empty, any, ◌==◌, ◌&&◌, ◌||◌, ◌<>◌, ◌∷◌, ◌++◌, Bool, not, Option, none, some, String, List, [],
  if◌then◌else◌, string_eq, nat_eq,
}

-- the argv's text in the error of `userWrite`
unfoldable pub user_write_error : Answer → List String → Result (Unit {0})
user_write_error a [] = ok tt
user_write_error a (cmd ∷ args) = elim a.fault [
  | some e ↦ err (cmd <> (": " <> e))
  | none ↦
      if a.code == pos 0
      then ok tt
      else err
          (join " " (cmd ∷ args) <> (" exited " <> (itoa a.code <> (": " <> trim_space a.stderr))))
]

unfoldable pub writes_systemd_unit : List File → Bool
writes_systemd_unit files = any (λ f. f.is_systemd_unit) files

-- one key of `secrets.create`, with the error for a key that is absent
abbrev pub add_listed :
    String → String → Option String → Result (Dict String) → Result (Dict String)
add_listed absent k none rest = err absent
add_listed absent k (some v) (err e) = err e
add_listed absent k (some v) (ok m) = ok (insert k v m)

-- the values of the keys that `secrets.create` lists
unfoldable pub listed_secrets : Cadre → Dict String → List String → Result (Dict String)
listed_secrets c values [] = ok []
listed_secrets c values (k ∷ ks) =
    add_listed
      ("cadre "
        <> (c.name <> (": secrets.create lists \"" <> (k <> ("\", absent from " <> c.sops_path)))))
      k (lookup k values) (listed_secrets c values ks)

unfoldable pub non_empty_secrets : Dict String → Dict String
non_empty_secrets [] = []
non_empty_secrets ((k, v) ∷ values) =
    let rest = non_empty_secrets values in if v == "" then rest else (k, v) ∷ rest

-- forCreate
unfoldable pub for_create : Cadre → Dict String → Result (Dict String)
for_create c values =
    if is_empty c.manifest.secrets.create
    then ok (non_empty_secrets values)
    else listed_secrets c values c.manifest.secrets.create

abbrev pub with_hashes :
    (String → String) → Dict String → Result (Dict String) → Result (Dict String × Dict String)
with_hashes hash values (err e) = err e
with_hashes hash values (ok m) = ok (values, hashes hash m)

-- the decrypted values with the hashes of those that become podman secrets
abbrev pub created_secrets :
    (String → String) → Cadre → Result (Dict String) → Result (Dict String × Dict String)
created_secrets hash c (err e) = err ("cadre " <> (c.name <> (": " <> e)))
created_secrets hash c (ok values) = with_hashes hash values (for_create c values)

-- the plan against the prior state, or against a zeroed baseline when the uid has changed
unfoldable pub plan_for : Cadre → Dict String → ℤ → State → Plan
plan_for c secret_hashes uid prior =
    if not (prior.uid == pos 0) && not (uid == prior.uid)
    then (let p = compute c secret_hashes empty in
        let rem = compute c secret_hashes prior in
        record p {
          stop_units = rem.stop_units;
          disable_units = rem.disable_units;
          remove_files = rem.remove_files;
          daemon_reload = p.daemon_reload || rem.daemon_reload;
        })
    else compute c secret_hashes prior

-- the units whose stop failed stay in the state, with their prior file hash
unfoldable pub keep_hash : State → String → State → State
keep_hash prior u next = elim (lookup u prior.files) [
  | none ↦ next
  | some h ↦ record next { files = insert u h next.files }
]

unfoldable pub retain_unit : State → String → State → State
unfolding keep_hash
retain_unit prior u next =
    let s = keep_hash prior u next in
    if is_systemd_unit u
    then record s { systemd_units = s.systemd_units ++ u ∷ [] }
    else record s { units = s.units ++ u ∷ [] }

unfoldable pub retain_failed : State → List String → State → State
unfolding retain_unit
retain_failed prior [] next = next
retain_failed prior (u ∷ us) next = retain_failed prior us (retain_unit prior u next)
