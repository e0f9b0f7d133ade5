-- ===== src/Tests/Agent.antt =====
-- A pass of the agent over a store with one cadre, and the age identity of a cadre.
use rucher.Reconcile.Apply.{state_path}
use rucher.Base.Dict.{lookup}
use rucher.Base.Sort.{insert_by, sort_by}
use rucher.Base.Text.{is_none, cut_suffix}
use rucher.Tests.{answer, pos, run_apply, applied, fresh_host, env}
use rucher.Placement.{placed_on, assigned}
use rucher.Cadre.Load.{Directory}
use rucher.Agent.{apply_one, apply_each, list_states, state_names, Outside, assigned_here, run_pass}
use rucher.Agent.Pass.{run_pass-reports, all_succeed}
use rucher.Agent.Forget.{run_pass-forgets}
use rucher.Host.{Env, World, Command, Answer, user, root, stored}
use rucher.Base.Result.{ok, err}
use rucher.Reconcile.New.{
  identity_answer, store_recipient, age_dir, recipient_path, first_key, same_key, new_as, Keys,
  recipient, new_cadre, recipient-new_cadre,
}
use rucher.Base.{
  all, ◌≡◌, ◌==◌, ◌&&◌, ◌∷◌, refl, true, false, not, none, some, String, List, [], map,
  if◌then◌else◌, string_eq, nat_eq, contains,
}

abbrev no_directory : Directory
no_directory = record {
  path = "";
  manifest_kind = err "none";
  manifest_text = err "none";
  entries = err "none";
}

abbrev outside : Outside
outside = record {
  sync = ok ("/co", "r1");
  read_placement = λ path. ok "shop: [n1]";
  decode_placement = λ text. ok (("shop", "n1" ∷ []) ∷ []);
  read_sealed_file = λ path. none;
  unseal = λ key sealed. ok sealed;
  cadre_dir = λ path. no_directory;
  loader = record { decode = λ text. err "none"; hash = λ s. s; is_duration = λ s. true };
  read_state_dir = λ w. some (ok (record { base = "shop.json"; is_dir = false } ∷ []));
}

run_pass-reports_example :
    (map (λ o. o.name) (run_pass env outside "n1" "key" fresh_host).0.0.applied ≡ "shop" ∷ [])
    × (is_none (run_pass env outside "n1" "key" fresh_host).0.1
        ≡ all (λ o. o.good) (run_pass env outside "n1" "key" fresh_host).0.0.applied)
    × (is_none (run_pass env outside "n1" "key" fresh_host).0.1
        ≡ all_succeed (apply_one env outside "/co" "key") ("shop" ∷ []) fresh_host)
    × ((k : String)
        → contains k (run_pass env outside "n1" "key" fresh_host).0.0.removed
          ≡ (contains k ("shop" ∷ []) && not (contains k ("shop" ∷ []))))
unfolding assigned_here assigned placed_on state_names list_states cut_suffix sort_by insert_by
run_pass-reports_example =
    run_pass-reports env outside "n1" "key" "/co" "r1" ("shop" ∷ []) ("shop" ∷ []) fresh_host refl
      refl refl

abbrev kept_host : World
kept_host = record {
  trace = [];
  states = ("/var/lib/rucher/cadres/state/shop.json", stored applied) ∷ [];
}

run_pass-forgets_example :
    lookup (state_path env "shop") (run_pass env outside "n2" "key" kept_host).1.states ≡ none
unfolding run_apply assigned_here assigned placed_on state_names list_states apply_each cut_suffix
run_pass-forgets_example =
    run_pass-forgets env outside "n2" "key" "/co" "r1" [] ("shop" ∷ []) kept_host "shop"
      (λ t c. refl) refl refl refl ((refl, (applied, refl)), tt) refl refl

abbrev keys : Keys
keys = record { generate = ok ("secret", "age1x"); recipient_for = λ identity. ok "age1x" }

abbrev last_content : List Command → Answer
last_content (user name uid argv (some content) ∷ before) = record {
  stdout = content;
  stderr = "";
  code = pos 0;
  fault = none;
}
last_content trace = answer

abbrev shown : List Command → Command → Answer
shown trace (root (c ∷ path ∷ []) stdin) =
    if path == "/var/lib/rucher/cadres/shop/.config/rucher/age/recipient.txt"
    then last_content trace
    else answer
shown trace c = answer

abbrev file_env : Env
file_env = record env { answer = shown }

recipient-new_cadre_example :
    (recipient file_env "shop" (new_cadre file_env keys "shop" fresh_host).1).0 ≡ ok "age1x"
unfolding run_apply new_cadre new_as same_key first_key recipient_path age_dir store_recipient
    identity_answer
recipient-new_cadre_example =
    recipient-new_cadre file_env keys "shop" fresh_host
      (new_cadre file_env keys "shop" fresh_host).1 "age1x" (λ o before content. refl) refl refl
