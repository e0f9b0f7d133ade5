-- ===== src/Reconcile/NextState.antt =====
-- `nextState` and `registriesHash` of internal/reconcile/reconcile.go. sha256 and the JSON encoder
-- are parameters.
use rucher.Base.{String, ◌<>◌, List, [], ◌∷◌, is_empty, if◌then◌else◌}
use rucher.Base.Int.{ℤ}
use rucher.Base.Dict.{Dict, insert, get}
use rucher.Manifest.{Login}
use rucher.Cadre.{File, Cadre}
use rucher.State.{State}
use rucher.Plan.{enabled}

pub record Codec : Type 0 where
  pub hash : String → String
  pub marshal : List Login → String

-- s.Files, by the loop over c.Files
unfoldable pub hashes_from : Dict String → List File → Dict String
hashes_from d [] = d
hashes_from d (f ∷ fs) = hashes_from (insert f.name f.hash d) fs

unfoldable pub units_of : List File → List String
units_of [] = []
units_of (f ∷ fs) = let rest = units_of fs in if f.is_unit then f.name ∷ rest else rest

unfoldable pub systemd_units_of : List File → List String
systemd_units_of [] = []
systemd_units_of (f ∷ fs) =
    let rest = systemd_units_of fs in
    if f.is_unit then rest else if enabled f then f.name ∷ rest else rest

module _ (k : Codec) where
  unfoldable pub login_lines : List Login → Dict String → String
  login_lines [] values = ""
  login_lines (l ∷ ls) values =
      "\n"
      <> (l.password_key <> ("=" <> (k.hash (get values l.password_key) <> login_lines ls values)))

  unfoldable pub registries_hash : List Login → Dict String → String
  unfolding login_lines
  registries_hash logins values =
      if is_empty logins then "" else k.hash (k.marshal logins <> login_lines logins values)

  unfoldable pub next_state : Cadre → ℤ → Dict String → Dict String → State
  unfolding hashes_from units_of systemd_units_of registries_hash
  next_state c uid secret_hashes secret_values = record {
    name = c.name;
    uid = uid;
    files = hashes_from [] c.files;
    secret_hashes = secret_hashes;
    units = units_of c.files;
    systemd_units = systemd_units_of c.files;
    resources = c.manifest.resources;
    registries_hash = registries_hash c.manifest.registries.login secret_values;
  }
