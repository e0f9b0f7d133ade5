-- ===== src/Fleet/Defaults.antt =====
-- internal/agentcfg/agentcfg.go: the configuration of the agent on a node. The read of the file with the
-- YAML decoder, and the host name, are parameters.
use rucher.Fleet.{AgentConfig, Fleet, StoreConfig}
use rucher.Base.Result.{ok, with_context, Result, ◌>>=◌}
use rucher.Fleet.Deploy.{agent_config, Options}
use rucher.Base.{
  ◌≡◌, ◌==◌, refl, inl, inr, true, false, none, some, String, if◌then◌else◌, string_eq, nat_eq,
  Bool-cases,
}

-- the defaults of `Load`
unfoldable pub fill_store : StoreConfig → StoreConfig
fill_store s = record s {
  kind = if s.kind == "" then "git" else s.kind;
  branch = if s.branch == "" then "main" else s.branch;
  use_ssl = some (elim s.use_ssl [ none ↦ true | some b ↦ b ]);
}

unfoldable pub load_config : Result String → (String → Result AgentConfig) → Result AgentConfig
load_config text decode = do
  t ← with_context "read agent config" text
  c ← with_context "parse agent config" (decode t)
  ok (record c { store = fill_store c.store })

-- `NodeID`
unfoldable pub node_id : Result String → AgentConfig → Result String
node_id hostname c =
    if c.node == "" then with_context "resolve hostname for node id" hostname else ok c.node

fill_store-defaults :
    (name : String) (opts : Options)
    → fill_store (agent_config name opts).store ≡ fill_store opts.store
unfolding fill_store agent_config
fill_store-defaults name opts = elim (Bool-cases (opts.store.kind == "")) [
  | inl k ↦ elim (Bool-cases (opts.store.branch == "")) [
    | inl b ↦ rw k (rw b refl)
    | inr b ↦ rw k (rw b (rw b refl))
  ]
  | inr k ↦ elim (Bool-cases (opts.store.branch == "")) [
    | inl b ↦ elim (Bool-cases (opts.store.kind == "git")) [
      | inl g ↦ rw k (rw b (rw g (rw k refl)))
      | inr g ↦ rw k (rw b (rw g (rw k (rw b refl))))
    ]
    | inr b ↦ rw k (rw b (rw k (rw b refl)))
  ]
]

-- The agent reads the configuration that the deployment of a named node wrote: its node id is the name of
-- the node, whatever the host name is, and its store is the store of the deployment with the defaults of
-- the agent. The decoder reads what the encoder wrote of this configuration.
pub load_config-agent_config :
    (fleet : Fleet) (decode : String → Result AgentConfig) (hostname : Result String)
    (name text : String) (opts : Options)
    → (name == "") ≡ false
    → fleet.marshal_agent (agent_config name opts) ≡ ok text
    → ((t : String)
        → fleet.marshal_agent (agent_config name opts) ≡ ok t
        → decode t ≡ ok (agent_config name opts))
    → (c : AgentConfig) × (load_config (ok text) decode ≡ ok c)
      × (node_id hostname c ≡ ok name)
      × (c.store ≡ fill_store opts.store)
unfolding load_config node_id agent_config
load_config-agent_config fleet decode hostname name text opts named written reads = (
  record (agent_config name opts) { store = fill_store (agent_config name opts).store },
  rw (reads text written) refl,
  rw named refl,
  fill_store-defaults name opts,
)
