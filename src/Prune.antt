-- ===== src/Prune.antt =====
-- internal/prune/prune.go: the two synthesized units that garbage-collect unused images.
use rucher.Fileset.{prune_timer, prune_service}
use rucher.Manifest.{Prune, on, default_prune_schedule, default_prune_until}
use rucher.Cadre.{File}
use rucher.Base.{◌==◌, ◌<>◌, ◌∷◌, true, false, String, List, [], if◌then◌else◌, string_eq, nat_eq}

unfoldable pub service_body : String → String
service_body until =
    "[Unit]\nDescription=rucher: prune unused podman images\n\n[Service]\nType=oneshot\nExecStart=/usr/bin/podman image prune --all --force --filter until="
    <> (until <> "\n")

unfoldable pub timer_body : String → String
timer_body schedule =
    "[Unit]\nDescription=rucher: schedule podman image pruning\n\n[Timer]\nOnCalendar="
    <> (schedule
        <> "\nRandomizedDelaySec=15m\nPersistent=true\n\n[Install]\nWantedBy=timers.target\n")

module _ (hash : String → String) where
  unfoldable pub unit : String → String → File
  unit name body = record {
    name = name;
    content = body;
    hash = hash body;
    is_unit = false;
    is_systemd_unit = true;
  }

  unfoldable pub prune_files : Prune → List File
  unfolding unit
  prune_files p =
      let schedule = if p.schedule == "" then default_prune_schedule else p.schedule in
      let until = if p.until == "" then default_prune_until else p.until in
      if on p
      then unit prune_service (service_body until) ∷ unit prune_timer (timer_body schedule) ∷ []
      else []
