-- ===== src/Cadre.antt =====
-- internal/cadre/cadre.go: a cadre's files and manifest.
pub mod Validate
pub mod Valid
pub mod Warnings
pub mod Load
pub mod Loaded
use rucher.Fileset.{is_reserved, is_unit_file, is_systemd_unit as is_systemd_name}
use rucher.Base.{
  refl, ap, [], ap, ◌∷◌, ◌++◌, ◌++◌, false, All, Distinct, ◌≡◌, Bool, String, List, map,
}
use rucher.Manifest.{Manifest}

pub record File : Type 0 where
  pub name : String
  pub content : String
  pub hash : String
  pub is_unit : Bool
  pub is_systemd_unit : Bool

pub record Cadre : Type 0 where
  pub name : String
  pub dir : String
  pub manifest : Manifest
  pub files : List File
  pub sops_path : String

abbrev pub file_names : List File → List String
file_names = map (λ f. f.name)

-- `Load` sets the two flags from the file's name.
pub record IsClassified (f : File) : Type 0 where
  pub unit : f.is_unit ≡ is_unit_file f.name
  pub systemd : f.is_systemd_unit ≡ is_systemd_name f.name

-- the cadre as `Load` and `prune.Files` make it
pub record IsLoaded (c : Cadre) : Type 0 where
  pub names : Distinct (file_names c.files)
  pub classified : All IsClassified c.files

-- no operator's file takes the name of a synthesized unit
abbrev pub IsFree : Cadre → Type 0
IsFree c = All (λ f. is_reserved f.name ≡ false) c.files

pub file_names-append : (xs ys : List File) → file_names (xs ++ ys) ≡ file_names xs ++ file_names ys
file_names-append [] ys = refl
file_names-append (x ∷ xs) ys = ap (◌∷◌ x.name) (file_names-append xs ys)
