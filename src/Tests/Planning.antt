-- ===== src/Tests/Planning.antt =====
-- Plans for one cadre, and what they are made of.
use rucher.Reconcile.Retry.{retain_failed-retries}
use rucher.Reconcile.Decide.{retain_failed}
use rucher.Plan.Reload.{daemon_reload-covers}
use rucher.State.{State, empty}
use rucher.Provision.Subid.{next_subid_start_covers, subid_base, next_subid_start}
use rucher.Plan.Stale.{restart_units-covers}
use rucher.Base.Dict.{Dict}
use rucher.Base.Int.{pos, int_ltb}
use rucher.Plan.Compute.{compute}
use rucher.Tests.{tick, web, web_env, secret_hashes, shop, applied, run_apply}
use rucher.Base.{inr, String, [], ◌∷◌, ◌≡◌, refl, true, false, string_eq, nat_eq, contains}

-- a new value of the secret that the container refers to
abbrev new_hashes : Dict String
new_hashes = ("token", "s2") ∷ []

restart_units-covers_example :
    contains "web.container" (compute shop new_hashes applied).restart_units ≡ true
unfolding run_apply
restart_units-covers_example =
    restart_units-covers shop new_hashes applied (tick ∷ []) (web_env ∷ []) web refl refl refl
      (inr (inr ("token", refl, ("s2", refl, refl))))

next_subid_start_covers_example :
    (int_ltb (next_subid_start "a:100000:65536\nb:165536:65536\n" "") (pos 231072) ≡ false)
    × (int_ltb (next_subid_start "a:100000:65536\nb:165536:65536\n" "") subid_base ≡ false)
unfolding run_apply
next_subid_start_covers_example =
    next_subid_start_covers "a:100000:65536\nb:165536:65536\n" "" "b:165536:65536" (pos 165536)
      (pos 65536) refl refl

daemon_reload-covers_example : (compute shop secret_hashes empty).daemon_reload ≡ true
unfolding run_apply
daemon_reload-covers_example = daemon_reload-covers shop secret_hashes empty refl

-- a pod that the cadre has lost
abbrev pod_left : State
pod_left = record applied { files = ("gone.pod", "h9") ∷ [] }

retain_failed-retries_example :
    (contains "gone.pod"
        (compute shop secret_hashes (retain_failed pod_left ("gone.pod" ∷ []) empty)).stop_units
      ≡ true)
    × (contains "gone.pod"
          (compute shop secret_hashes (retain_failed pod_left ("gone.pod" ∷ []) empty)).remove_files
        ≡ true)
unfolding run_apply
retain_failed-retries_example =
    retain_failed-retries shop secret_hashes pod_left empty ("gone.pod" ∷ []) "gone.pod" refl refl
      refl refl
