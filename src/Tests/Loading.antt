-- ===== src/Tests/Loading.antt =====
-- A directory that is loaded and checked, a placement file, and a published port.
use rucher.Cadre.Loaded.{load-IsLoaded}
use rucher.Manifest.{load_manifest}
use rucher.Manifest.Valid.{validate-one_line, one_line}
use rucher.Base.Dict.{lookup, Dict}
use rucher.Cadre.Warnings.{warnings, publish_binds_all_interfaces, published}
use rucher.Cadre.{IsFree, IsLoaded, Cadre, File}
use rucher.Base.Text.{contains_char, ext}
use rucher.Cadre.Valid.{validate-shadows, validate-section, generates, is_any_unit}
use rucher.Base.Result.{err, ok, Result}
use rucher.Cadre.Load.{
  note_secrets, is_service, file_of, add_file, load_kind, load_entry, entry_names, load_entries,
  regular, load, Loader, Directory, Entry,
}
use rucher.Tests.{has_section, shop, manifest, web, run_apply}
use rucher.Base.{
  is_empty, Distinct, any, ◌≡◌, ◌==◌, ◌∷◌, refl, ap, true, false, some, String, List, [], string_eq,
  nat_eq, All,
}
use rucher.Cadre.Validate.{
  validate_unit, check_unit, generated_from, required_section, check_shadow, check_name,
  check_secrets, validate,
}
use rucher.Manifest.Validate.{
  lowers_to, is_alpha_word, is_memory_max, check_prune, check_resources, check_logins,
  validate as validate_manifest,
}

abbrev entry : String → String → Entry
entry name content = record { name = name; kind = regular; content = ok content }

abbrev directory_of_shop : Directory
directory_of_shop = record {
  path = "store/cadres/shop";
  manifest_kind = ok regular;
  manifest_text = ok "";
  entries = ok (
      entry "rucher.yml" ""
      ∷ entry "tick.timer" "[Timer]\n"
      ∷ entry "web.container" web.content
      ∷ entry "web.env" "PORT=80\n"
      ∷ []);
}

abbrev loader : Loader
loader = record { decode = λ text. ok manifest; hash = λ s. s; is_duration = λ s. true }

abbrev names_of : Result (List Entry) → List String
names_of (ok es) = entry_names es
names_of (err e) = []

directory_names : (es : List Entry) → directory_of_shop.entries ≡ ok es → Distinct (entry_names es)
directory_names es e = rw (← ap names_of e) (refl, (refl, (refl, (refl, tt))))

abbrev cadre_in : Result Cadre → Cadre
cadre_in (ok c) = c
cadre_in (err e) = shop

load-IsLoaded_example :
    IsLoaded (cadre_in (load loader directory_of_shop))
    × IsFree (cadre_in (load loader directory_of_shop))
unfolding run_apply load load_entries load_entry load_kind add_file file_of is_service note_secrets
    load_manifest validate validate_manifest check_secrets check_name check_shadow generated_from
    check_unit validate_unit check_logins check_resources check_prune is_memory_max is_alpha_word
    lowers_to
load-IsLoaded_example =
    load-IsLoaded loader directory_of_shop (cadre_in (load loader directory_of_shop))
      directory_names refl

shop-validates : validate shop ≡ ok tt
unfolding run_apply validate check_secrets check_name check_shadow generated_from check_unit
    validate_unit
shop-validates = refl

validate-section_example :
    All
      (λ f.
        is_any_unit f ≡ true
        → lookup (ext f.name) required_section ≡ some "Container"
        → has_section f.content "Container" ≡ true)
      shop.files
validate-section_example = validate-section shop "Container" shop-validates

validate-shadows_example :
    All
      (λ s. (ext s.name == ".service") ≡ true → any (generates s.name) shop.files ≡ false)
      shop.files
validate-shadows_example = validate-shadows shop shop-validates

validate-one_line_example :
    (one_line manifest.resources.memory_max ≡ true)
    × (one_line manifest.resources.cpu_quota ≡ true)
    × (contains_char b'\n' manifest.prune.schedule ≡ false)
unfolding run_apply validate_manifest check_logins check_resources check_prune is_memory_max
    is_alpha_word lowers_to
validate-one_line_example = validate-one_line (λ s. true) manifest refl

abbrev public_web : File
public_web = record web { content = "[Container]\nPublishPort=8080:80\n" }

public_web-warnings : is_empty (warnings (record shop { files = public_web ∷ [] })) ≡ false
unfolding run_apply published publish_binds_all_interfaces warnings
public_web-warnings = refl

abbrev placements : Dict (List String)
placements = ("shop", "n1" ∷ "n2" ∷ []) ∷ ("blog", "n2" ∷ []) ∷ []
