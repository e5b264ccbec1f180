-- ===== src/Install/Collector/Tests.antt =====
-- The collector installed on a system with an old dump program, and taken away.
use terminal_status_panel.Base.{
  ◌≡◌, refl, ◌⊎◌, true, false, none, some, [], ◌∷◌, Text, codes, All, mem, if◌then◌else◌,
}
use terminal_status_panel.Base.Dict.{lookup, has_key}
use terminal_status_panel.Install.{starts_with}
use terminal_status_panel.Install.Collector.{
  Resources, Files, render_collector_units, targets, Report, failed, nothing_to_remove,
  remove_collector, report, apply_collector, dump_path, replace_from, is_plain_path, rstrip_slashes,
}
use terminal_status_panel.Install.Collector.Files.{IsInstalled, apply_collector_again}
use terminal_status_panel.Install.Collector.Removal.{listed, is_stuck, remove_collector_gone}

abbrev resources : Resources
resources = record {
  dump = codes "#!/bin/sh\n";
  service_template = codes "ExecStart={bin_dir}/status-collect\n";
  timer = codes "OnUnitActiveSec=60\n";
}

abbrev units : Text × Text
units = (codes "ExecStart=/opt/panel/status-collect\n", codes "OnUnitActiveSec=60\n")

rendered : render_collector_units resources (codes "/opt/panel/") ≡ some units
unfolding render_collector_units replace_from is_plain_path rstrip_slashes starts_with
rendered = refl

abbrev old_dump : Files
old_dump =
    (dump_path, record { text = codes "old\n"; mode = 384 })
    ∷ ("etc/motd", record { text = codes "hello\n"; mode = 420 })
    ∷ []

apply_collector_again_example :
    (said : Report) × (files' : Files) × (apply_collector
        (λ args. 0)
        resources
        (codes "/opt/panel/")
        false
        []
        old_dump
      ≡ some (said, files'))
    × All (IsInstalled files') (targets resources units)
    × ((has_key "etc/motd" (targets resources units) ≡ true)
        ⊎ (lookup "etc/motd" files' ≡ lookup "etc/motd" old_dump))
    × (apply_collector (λ args. 0) resources (codes "/opt/panel/") false [] files'
        ≡ some (report (λ args. 0) false, files'))
apply_collector_again_example =
    apply_collector_again (λ args. 0) resources (codes "/opt/panel/") [] old_dump units "etc/motd"
      rendered

remove_collector_gone_example :
    ((is_stuck (λ args. 0) old_dump ≡ true)
      × (remove_collector (λ args. 0) [] old_dump ≡ (failed, old_dump)))
    ⊎ ((is_stuck (λ args. 0) old_dump ≡ false)
        × (lookup dump_path ((remove_collector (λ args. 0) [] old_dump).1)
            ≡ (if mem dump_path (listed []) then none else lookup dump_path old_dump))
        × (remove_collector (λ args. 127) [] ((remove_collector (λ args. 0) [] old_dump).1)
            ≡ (nothing_to_remove, (remove_collector (λ args. 0) [] old_dump).1)))
remove_collector_gone_example =
    remove_collector_gone (λ args. 0) (λ args. 127) [] old_dump dump_path
