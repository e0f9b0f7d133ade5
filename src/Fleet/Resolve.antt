-- ===== src/Fleet/Resolve.antt =====
-- internal/sshresolve/sshresolve.go: the ssh target of a node.
use rucher.Base.Decimal.{itoa}
use rucher.Base.Int.{pos, int_eq}
use rucher.Base.Result.{ok, err, Result}
use rucher.Base.Path.{join_path}
use rucher.Fleet.{Fleet, NodeConfig, Target}
use rucher.Base.Text.{cut_prefix, contains_char}
use rucher.Base.{◌==◌, ◌<>◌, ◌∷◌, Option, none, some, String, [], if◌then◌else◌, string_eq, nat_eq}

-- net.JoinHostPort
unfoldable pub join_host_port : String → String → String
unfolding contains_char
join_host_port host port =
    if contains_char b':' host then "[" <> (host <> ("]:" <> port)) else host <> (":" <> port)

unfoldable pub user_or : String → String → String
user_or u default_user = if u == "" then default_user else u

module _ (home : Option String) where
  unfoldable pub expand_home : String → String
  expand_home path = elim (cut_prefix "~/" path) [
    | none ↦ path
    | some rest ↦ elim home [ none ↦ path | some dir ↦ join_path (dir ∷ rest ∷ []) ]
  ]

-- The values of the alias of a node in the ssh.config of lima, when there is a host name.
unfoldable pub lima_target : Option String → (String → String) → Option Target
lima_target home setting =
    if setting "HostName" == ""
    then none
    else some (record {
      addr =
          join_host_port (setting "HostName")
            (if setting "Port" == "" then "22" else setting "Port");
      user = setting "User";
      identity = expand_home home (setting "IdentityFile");
    })

unfoldable pub connection_target : String → NodeConfig → Result Target
connection_target name cfg =
    if cfg.connection.host == ""
    then err ("node " <> (name <> ": no network.address, lima ssh.config, or connection.host"))
    else ok (record {
      addr =
          join_host_port cfg.connection.host
            (if cfg.connection.port == pos 0 then "22" else itoa cfg.connection.port);
      user = user_or cfg.connection.user "root";
      identity = cfg.connection.identity;
    })

-- the file of lima and the connection block, when there is no network address
unfoldable pub fallback_target : Option Target → String → NodeConfig → Result Target
fallback_target (some t) name cfg = ok t
fallback_target none name cfg = connection_target name cfg

module _ (fleet : Fleet) where
  unfoldable pub from_lima : String → Option Target
  from_lima name = elim (fleet.lima name) [
    | none ↦ none
    | some setting ↦ lima_target fleet.home setting
  ]

  -- `Resolve`
  unfoldable pub resolve : String → NodeConfig → Result Target
  resolve name cfg =
      if cfg.address == ""
      then fallback_target (from_lima name) name cfg
      else ok (record {
        addr = join_host_port cfg.address "22";
        user = user_or cfg.connection.user "root";
        identity = cfg.connection.identity;
      })
