-- ===== src/Tests/Deploy.antt =====
-- A deployment to one node and the read of its status.
use rucher.Base.Int.{pos}
use rucher.Host.{Answer}
use rucher.Fleet.{AgentConfig, Fleet, NodeConfig}
use rucher.Fleet.Deploy.{Options, agent_config, deploy_one}
use rucher.Fleet.Defaults.{fill_store, load_config, node_id, load_config-agent_config}
use rucher.Fleet.Deploy.Safe.{IsSafe, deploy_one-IsSafe}
use rucher.Fleet.Deploy.Reports.{deploy_one-reports}
use rucher.Fleet.Status.{
  collect_one, collect_from, read_node, read_answer, probe_live, note_answer, note_status,
  note_live, cadre_errors,
}
use rucher.Fleet.Resolve.{resolve, join_host_port, user_or}
use rucher.Base.Text.{contains_char}
use rucher.Fleet.Status.Health.{StatusRead, collect_one-IsHealthy}
use rucher.Agent
use rucher.Cli.Deploy.{default_flags, options_of}
use rucher.Base.Result.{Result, ok}
use rucher.Base.{is_empty, ◌≡◌, ◌&&◌, refl, true, none, String, [], string_eq, nat_eq, All}

abbrev node_config : NodeConfig
node_config = record {
  address = "10.0.0.1";
  connection = record { host = ""; user = ""; port = pos 0; identity = "" };
  podman = record { source = ""; version = "" };
}

abbrev amd64 : Answer
amd64 = record { stdout = "amd64\n"; stderr = ""; code = pos 0; fault = none }

abbrev fleet : Fleet
fleet = record {
  reply = λ calls c. amd64;
  config_of = λ name. ok node_config;
  lima = λ name. none;
  home = none;
  marshal_agent = λ c. ok "node: n1\n";
}

abbrev options : Options
options = options_of default_flags none

deploy_one-IsSafe_example : All IsSafe (deploy_one fleet "n1" options []).1
deploy_one-IsSafe_example = deploy_one-IsSafe fleet "n1" options [] tt

deploy_one-reports_example :
    ((deploy_one fleet "n1" options []).0.good
      ≡ is_empty (deploy_one fleet "n1" options []).0.errors)
    × ((deploy_one fleet "n1" options []).0.agent_installed
        ≡ ((deploy_one fleet "n1" options []).0.good && options.bootstrap))
deploy_one-reports_example = deploy_one-reports fleet "n1" options []

abbrev decode_status : String → Result Agent.Status
decode_status text = ok (record { revision = "r1"; applied = []; removed = []; error = "" })

collect_one-IsHealthy_example :
    StatusRead fleet decode_status "n1" (collect_one fleet decode_status "n1" true []).0 []
unfolding collect_one collect_from read_node resolve read_answer probe_live note_answer note_status
    note_live cadre_errors join_host_port user_or contains_char
collect_one-IsHealthy_example = collect_one-IsHealthy fleet decode_status "n1" true [] refl refl

abbrev decode_agent : String → Result AgentConfig
decode_agent text = ok (agent_config "n1" options)

load_config-agent_config_example :
    (c : AgentConfig) × (load_config (ok "node: n1\n") decode_agent ≡ ok c)
    × (node_id (ok "debian") c ≡ ok "n1")
    × (c.store ≡ fill_store options.store)
load_config-agent_config_example =
    load_config-agent_config fleet decode_agent (ok "debian") "n1" "node: n1\n" options refl refl
      (λ t same. refl)
