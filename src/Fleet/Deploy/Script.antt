-- ===== src/Fleet/Deploy/Script.antt =====
-- The texts of internal/deploy/deploy.go that reach a node, and the tests on what is put into them.
use rucher.Base.Text.{cut, join}
use rucher.Base.{
  code, leb, ℕ, ◌==◌, ◌&&◌, ◌||◌, ◌<>◌, ◌∷◌, Bool, true, false, not, none, some, String, [],
  if◌then◌else◌, string_eq, nat_eq,
}

abbrev pub apt_podman : String
apt_podman = join "" (
    "if ! command -v podman >/dev/null 2>&1; then\n" ∷ "  apt-get update -qq\n"
    ∷ "  DEBIAN_FRONTEND=noninteractive apt-get install -y -qq -o "
    ∷ "Dpkg::Options::=--force-confold podman\n" ∷ "fi\n" ∷ [])

abbrev pub before_url : String
before_url = join "" (
    "if ! command -v podman >/dev/null 2>&1; then\n" ∷ "  arch=$(dpkg --print-architecture)\n"
    ∷ "  curl -fsSL \"" ∷ [])

abbrev pub behind_url : String
behind_url = join "" (
    "\" -o /tmp/p6.tgz\n" ∷ "  mkdir -p /tmp/p6 && tar -xzf /tmp/p6.tgz -C /tmp/p6\n"
    ∷ "  apt-get update -qq\n" ∷ "  DEBIAN_FRONTEND=noninteractive apt-get install -y -qq -o "
    ∷ "Dpkg::Options::=--force-confold /tmp/p6/*.deb passt\n" ∷ "  rm -rf /tmp/p6 /tmp/p6.tgz\n"
    ∷ "fi\n" ∷ [])

abbrev pub base_script : String
base_script = join "" (
    "command -v newuidmap >/dev/null 2>&1 || { apt-get update -qq && "
    ∷ "DEBIAN_FRONTEND=noninteractive apt-get install -y -qq uidmap; }\n"
    ∷ "touch /etc/subuid /etc/subgid\n" ∷ "modprobe tun 2>/dev/null || true\n"
    ∷ "echo tun > /etc/modules-load.d/tun.conf\n"
    ∷ "printf 'KERNEL==\"tun\", SUBSYSTEM==\"misc\", MODE=\"0666\"\\n' > "
    ∷ "/etc/udev/rules.d/99-rucher-tun.rules\n"
    ∷ "udevadm control --reload-rules 2>/dev/null || true\n"
    ∷ "[ -e /dev/net/tun ] && chmod 0666 /dev/net/tun || true\n" ∷ [])

abbrev pub is_ref_char : ℕ → Bool
is_ref_char c =
    (leb b'A' c && leb c b'Z')
    || (leb b'a' c && leb c b'z')
    || (leb b'0' c && leb c b'9')
    || c == b'.'
    || c == b'_'
    || c == b'-'

abbrev is_first_ref_char : ℕ → Bool
is_first_ref_char c =
    (leb b'A' c && leb c b'Z') || (leb b'a' c && leb c b'z') || (leb b'0' c && leb c b'9')

-- [A-Za-z0-9._-]*
unfoldable pub all_ref_chars : String → Bool
all_ref_chars String.[] = true
all_ref_chars (String.◌∷◌ c s) = is_ref_char (code c) && all_ref_chars s

-- refRe
unfoldable pub matches_ref : String → Bool
unfolding all_ref_chars
matches_ref String.[] = false
matches_ref (String.◌∷◌ c s) = is_first_ref_char (code c) && all_ref_chars s

-- repoRe
unfoldable pub matches_repo : String → Bool
unfolding all_ref_chars cut
matches_repo s = elim (cut b'/' s) [
  | none ↦ false
  | some (owner, name) ↦
      not (owner == "") && all_ref_chars owner && not (name == "") && all_ref_chars name
]

-- podmanTarballURL
unfoldable pub podman_tarball_url : String → String
podman_tarball_url version =
    "https://github.com/igk1972/podman-6-deb/releases/"
    <> ((if version == "" then "latest/download/" else "download/" <> (version <> "/"))
        <> "podman6-trixie-${arch}.tar.gz")

unfoldable pub prebuilt_podman : String → String
prebuilt_podman version = before_url <> (podman_tarball_url version <> behind_url)

-- provisionScript
unfoldable pub provision_script : String → String → String
provision_script source version =
    "set -e\n"
    <> ((if source == "prebuilt" then prebuilt_podman version else apt_podman) <> base_script)
