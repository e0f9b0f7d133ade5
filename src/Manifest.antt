-- ===== src/Manifest.antt =====
-- internal/manifest/manifest.go: the manifest of a cadre, rucher.yml.
pub mod Validate
pub mod Valid
use rucher.Base.Result.{ok, with_context, ◌>>=◌, Result}
use rucher.Base.{Bool, true, ◌&&◌, String, List, Option, none, some, ◌≡◌, ◌↔◌, arith, eq_iff}
use rucher.Base.{◌==◌, string_eq, Eq, if◌then◌else◌}

pub record Secrets : Type 0 where
  pub from : String
  pub create : List String

pub record Login : Type 0 where
  pub registry : String
  pub username : String
  pub password_key : String
  pub insecure : Bool

pub record Registries : Type 0 where
  pub login : List Login

pub record Resources : Type 0 where
  pub memory_max : String
  pub cpu_quota : String

-- `enabled` is a pointer: nil when the key is absent.
pub record Prune : Type 0 where
  pub enabled : Option Bool
  pub schedule : String
  pub until : String

pub record Manifest : Type 0 where
  pub secrets : Secrets
  pub registries : Registries
  pub resources : Resources
  pub prune : Prune

-- Prune.On
unfoldable pub on : Prune → Bool
on p = elim p.enabled [ none ↦ true | some b ↦ b ]

-- `==` on the struct Resources
abbrev pub resources_beq : Resources → Resources → Bool
resources_beq a b = a.memory_max == b.memory_max && a.cpu_quota == b.cpu_quota

pub resources_beq_iff : (a b : Resources) → (resources_beq a b ≡ true) ↔ (a ≡ b)
resources_beq_iff a b =
    ground (arith, eq_iff a.memory_max b.memory_max, eq_iff a.cpu_quota b.cpu_quota)

instance abbrev pub resources_eq : Eq Resources
resources_eq = record { beq = resources_beq; beq_iff = resources_beq_iff }

abbrev pub default_prune_schedule : String
default_prune_schedule = "daily"

abbrev pub default_prune_until : String
default_prune_until = "168h"

abbrev pub default_secrets_file : String
default_secrets_file = "secrets.sops.yaml"

abbrev or_default : String → String → String
or_default d s = if s == "" then d else s

-- the defaults that `Load` fills in behind the decoder
unfoldable pub fill_defaults : Manifest → Manifest
fill_defaults m = record m {
  secrets = record (m.secrets) { from = or_default default_secrets_file m.secrets.from };
  prune = record (m.prune) {
    schedule = or_default default_prune_schedule m.prune.schedule;
    until = or_default default_prune_until m.prune.until;
  };
}

-- `Load`, over the YAML decoder that refuses unknown keys
unfoldable pub load_manifest : (String → Result Manifest) → String → Result Manifest
unfolding fill_defaults
load_manifest decode text = do
  m ← with_context "parse rucher.yml" (decode text)
  ok (fill_defaults m)
