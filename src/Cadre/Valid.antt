-- ===== src/Cadre/Valid.antt =====
-- What a cadre that `Validate` accepts is like.
use rucher.Base.{
  any, All-imp, ◌≡◌, ◌==◌, ◌&&◌, ◌||◌, ◌∷◌, refl, Bool, true, false, not, none, some, String, List,
  [], arith, eq_iff, if◌then◌else◌, string_eq, nat_eq, contains, All,
}
use rucher.Base.Dict.{Dict, insert, lookup, lookup-insert}
use rucher.Base.Text.{is_some, split, trim_space, ext}
use rucher.Base.Result.{ok, reject, check_each, >>-eq-ok, >>=-eq-ok, check_each-All, reject-eq-ok}
use rucher.Fileset.{is_reserved, unit_service, has_section, is_header}
use rucher.Cadre.{File, Cadre, file_names}
use rucher.Cadre.Validate.{
  Scan, scan_header, scan_lines, missing, env_file, check_name, generated_from, check_shadow,
  check_unit, validate, validate_unit, check_sections, lacks_section, required_section,
  check_secrets,
}

-- the checks that an accepted cadre has passed
record Passed (c : Cadre) : Type 0 where
  names : All (λ f. check_name f ≡ ok tt) c.files
  shadows : All (λ f. check_shadow (generated_from [] c.files) f ≡ ok tt) c.files
  units : All (λ f. check_unit (file_names c.files) f ≡ ok tt) c.files

validate-Passed : (c : Cadre) → validate c ≡ ok tt → Passed c
unfolding validate
validate-Passed c h =
    let (_, h1) = >>-eq-ok (check_secrets c) _ h in
    let (n, h2) = >>-eq-ok (check_each check_name c.files) _ h1 in
    let (s, u) = >>-eq-ok (check_each (check_shadow (generated_from [] c.files)) c.files) _ h2 in
    record {
      names = check_each-All check_name c.files n;
      shadows = check_each-All (check_shadow (generated_from [] c.files)) c.files s;
      units = check_each-All (check_unit (file_names c.files)) c.files u;
    }

check_name-reserved : (f : File) → check_name f ≡ ok tt → is_reserved f.name ≡ false
unfolding check_name
check_name-reserved f h =
    reject-eq-ok (is_reserved f.name) _ (>>-eq-ok (reject (is_reserved f.name) _) _ h).0

-- An accepted cadre has no file with the name of a synthesized unit.
pub validate-reserved :
    (c : Cadre) → validate c ≡ ok tt → All (λ f. is_reserved f.name ≡ false) c.files
validate-reserved c h = All-imp c.files check_name-reserved (validate-Passed c h).names

generated_from-grows :
    (k : String) (d : Dict String) (fs : List File)
    → is_some (lookup k d) ≡ true
    → is_some (lookup k (generated_from d fs)) ≡ true
unfolding generated_from
generated_from-grows k d [] h = h
generated_from-grows k d (f ∷ fs) h = ground (
  arith,
  lookup-insert (unit_service f.name) k f.name d,
  generated_from-grows k (insert (unit_service f.name) f.name d) fs,
  generated_from-grows k d fs,
)

generated_from-All :
    (d : Dict String) (fs : List File)
    → All
        (λ f.
          f.is_unit ≡ true → is_some (lookup (unit_service f.name) (generated_from d fs)) ≡ true)
        fs
unfolding generated_from
generated_from-All d [] = tt
generated_from-All d (f ∷ fs) = (
  λ u.
      generated_from-grows (unit_service f.name)
        (if f.is_unit then insert (unit_service f.name) f.name d else d) fs
        (ground (
          arith,
          lookup-insert (unit_service f.name) (unit_service f.name) f.name d,
          eq_iff (unit_service f.name) (unit_service f.name),
        )),
  generated_from-All (if f.is_unit then insert (unit_service f.name) f.name d else d) fs,
)

check_shadow-fresh :
    (generated : Dict String) (f : File)
    → check_shadow generated f ≡ ok tt
    → (ext f.name == ".service") ≡ true
    → lookup f.name generated ≡ none
unfolding check_shadow
check_shadow-fresh generated f h e = ground arith

-- no unit of the list generates the service with this name
abbrev pub generates : String → File → Bool
generates service f = f.is_unit && unit_service f.name == service

found-differs :
    (service : String) (d : Dict String) (f : File)
    → lookup service d ≡ none
    → (f.is_unit ≡ true → is_some (lookup (unit_service f.name) d) ≡ true)
    → generates service f ≡ false
found-differs service d f absent found = ground (arith, eq_iff (unit_service f.name) service)

All-false : (p : File → Bool) (fs : List File) → All (λ f. p f ≡ false) fs → any p fs ≡ false
All-false p [] h = refl
All-false p (f ∷ fs) h = ground (arith, h.0, All-false p fs h.1)

-- In an accepted cadre no service file has the name of a service that one of the units generates.
pub validate-shadows :
    (c : Cadre)
    → validate c ≡ ok tt
    → All (λ s. (ext s.name == ".service") ≡ true → any (generates s.name) c.files ≡ false) c.files
validate-shadows c h =
    All-imp c.files
      (λ s passed e. All-false (generates s.name) c.files (
        All-imp c.files
          (λ f.
            found-differs s.name (generated_from [] c.files) f
              (check_shadow-fresh (generated_from [] c.files) s passed e))
          (generated_from-All [] c.files)))
      (validate-Passed c h).shadows

header-sections :
    (r line : String) (s : Scan)
    → contains r (scan_header line s).sections ≡ (is_header r line || contains r s.sections)
unfolding scan_header is_header
header-sections r line s = ground arith

scan_lines-sections :
    (r unit : String) (have lines : List String) (s : Scan) {t : Scan}
    → scan_lines unit have lines s ≡ ok t
    → contains r t.sections ≡ (any (λ l. is_header r (trim_space l)) lines || contains r s.sections)
unfolding scan_lines
scan_lines-sections r unit have [] s {t} h = let e : t ≡ s = cc h in rw e refl
scan_lines-sections r unit have (line ∷ lines) s {t} h =
    let (_, _, h1) = >>=-eq-ok (reject (missing have (env_file (trim_space line))) _) _ h in
    ground (
      arith,
      header-sections r (trim_space line) s,
      scan_lines-sections r unit have lines (scan_header (trim_space line) s) {t = t} h1,
    )

scan_lines-shipped :
    (unit : String) (have lines : List String) (s : Scan) {t : Scan}
    → scan_lines unit have lines s ≡ ok t
    → All (λ l. missing have (env_file (trim_space l)) ≡ false) lines
unfolding scan_lines
scan_lines-shipped unit have [] s h = tt
scan_lines-shipped unit have (line ∷ lines) s h =
    let (_, e, h1) = >>=-eq-ok (reject (missing have (env_file (trim_space line))) _) _ h in
    (reject-eq-ok _ _ e, scan_lines-shipped unit have lines (scan_header (trim_space line) s) h1)

-- a file that is a unit of either kind
abbrev pub is_any_unit : File → Bool
is_any_unit f = f.is_unit || f.is_systemd_unit

check_unit-validated :
    (have : List String) (f : File)
    → check_unit have f ≡ ok tt
    → is_any_unit f ≡ true
    → validate_unit have f ≡ ok tt
unfolding check_unit
check_unit-validated have f h u = ground arith

-- no line of the file names an absent file of the cadre
abbrev pub IsShipped : List String → File → Type 0
IsShipped have f = All (λ l. missing have (env_file (trim_space l)) ≡ false) (split b'\n' f.content)

validate_unit-IsShipped :
    (have : List String) (f : File) → validate_unit have f ≡ ok tt → IsShipped have f
unfolding validate_unit
validate_unit-IsShipped have f h =
    let (s, e, _) =
      >>=-eq-ok (scan_lines f.name have (split b'\n' f.content) _) (check_sections f.name) h in
    scan_lines-shipped f.name have (split b'\n' f.content) _ e

-- In an accepted cadre every file of the cadre that a unit names as its EnvironmentFile is shipped.
validate-IsShipped :
    (c : Cadre)
    → validate c ≡ ok tt
    → All (λ f. is_any_unit f ≡ true → IsShipped (file_names c.files) f) c.files
validate-IsShipped c h =
    All-imp c.files
      (λ f passed u.
        validate_unit-IsShipped (file_names c.files) f
          (check_unit-validated (file_names c.files) f passed u))
      (validate-Passed c h).units

validate_unit-section :
    (have : List String) (f : File) (req : String)
    → validate_unit have f ≡ ok tt
    → lookup (ext f.name) required_section ≡ some req
    → has_section f.content req ≡ true
unfolding validate_unit check_sections lacks_section has_section
validate_unit-section have f req h r =
    let (s, e, h1) =
      >>=-eq-ok (scan_lines f.name have (split b'\n' f.content) _) (check_sections f.name) h in
    let (_, h2) = >>-eq-ok (reject (not s.has_section) _) _ h1 in
    let lacks = reject-eq-ok (lacks_section f.name s.sections) _ h2 in
    ground
      (arith, r, lacks, scan_lines-sections req f.name have (split b'\n' f.content) _ {t = s} e)

-- In an accepted cadre every unit file has the section that the Quadlet generator demands of its
-- extension.
pub validate-section :
    (c : Cadre) (req : String)
    → validate c ≡ ok tt
    → All
        (λ f.
          is_any_unit f ≡ true
          → lookup (ext f.name) required_section ≡ some req
          → has_section f.content req ≡ true)
        c.files
validate-section c req h =
    All-imp c.files
      (λ f passed u r.
        validate_unit-section (file_names c.files) f req
          (check_unit-validated (file_names c.files) f passed u) r)
      (validate-Passed c h).units
