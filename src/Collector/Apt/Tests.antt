-- ===== src/Collector/Apt/Tests.antt =====
-- collector/apt.py on one security update.
use terminal_status_panel.Base.{
  ℕ, true, ◌⊎◌, before, has_char, false, none, some, String, refl, ◌≡◌,
}
use terminal_status_panel.Collector.Apt.{
  exited, collect_updates, inst_origin, last_brackets, after_package,
}
use terminal_status_panel.Collector.Apt.Counts.{is_kept, Reported, collect_updates-Reported}

abbrev output : String
output = "Inst bash [5.2-1] (5.2-2 Debian-Security:12/stable-security [amd64])\nConf bash\n"

origin :
    inst_origin "Inst bash [5.2-1] (5.2-2 Debian-Security [amd64])"
    ≡ some "5.2-2 Debian-Security [amd64]"
unfolding inst_origin last_brackets after_package before has_char
origin = refl

collect_updates-Reported_example :
    ((is_kept {Real = ℕ} (λ at. false) none ≡ true)
      × (collect_updates {Real = ℕ} (λ at. false) none 7 (exited 0 output) ≡ (none, none)))
    ⊎ ((is_kept {Real = ℕ} (λ at. false) none ≡ false)
        × Reported none 7
            (exited 0 output)
            (collect_updates {Real = ℕ} (λ at. false) none 7 (exited 0 output)))
collect_updates-Reported_example =
    collect_updates-Reported {Real = ℕ} (λ at. false) none 7 (exited 0 output)
