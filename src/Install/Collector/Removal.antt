-- ===== src/Install/Collector/Removal.antt =====
-- install.py: what the removal of the collector leaves on the disk, and the removal run again.
use text.Mathlib.TextEquality.{eq_iff}
use text.Mathlib.TextPositions.{eq_refl}
use terminal_status_panel.Base.{
  ℕ, ◌≡◌, refl, ap, sym, ◌∙◌, ◌⊎◌, inl, inr, Bool, true, false, not, ◌&&◌, ◌||◌, none, List, [],
  ◌∷◌, String, str_eq, any, all, and_true, mem, ◌==◌, Bool-cases, if◌then◌else◌, arith,
}
use terminal_status_panel.Base.Dict.{lookup, has_key, without}
use terminal_status_panel.Install.Collector.{
  Files, failed, nothing_to_remove, stop_units, remove_collector,
}

lookup-without :
    (names : List String) (p : String) (files : Files)
    → lookup p (without names files) ≡ (if mem p names then none else lookup p files)
unfolding lookup
lookup-without names p [] = elim (Bool-cases (mem p names)) [ inl e ↦ rw e | inr e ↦ rw e ]
lookup-without names p ((j, f) ∷ files) = elim (Bool-cases (str_eq j p)) [
  | inl same ↦
      let same_key = (eq_iff j p).0 same in
      elim (Bool-cases (mem j names)) [
        | inl e ↦
            rw e (lookup-without names p files ∙ rw (sym (ap (λ x. mem x names) same_key) ∙ e))
        | inr e ↦ rw (e, same, sym (ap (λ x. mem x names) same_key) ∙ e)
      ]
  | inr apart ↦ elim (Bool-cases (mem j names)) [
    | inl e ↦ rw (e, apart) (lookup-without names p files)
    | inr e ↦ rw (e, apart) (lookup-without names p files)
  ]
]

has_key-without :
    (names : List String) (p : String) (files : Files)
    → has_key p (without names files) ≡ (not (mem p names) && has_key p files)
has_key-without names p [] = elim (Bool-cases (mem p names)) [ inl e ↦ rw e | inr e ↦ rw e ]
has_key-without names p ((j, f) ∷ files) = elim (Bool-cases (str_eq j p)) [
  | inl same ↦
      let same_key = ap (λ x. mem x names) ((eq_iff j p).0 same) in
      elim (Bool-cases (mem j names)) [
        | inl e ↦ rw e (has_key-without names p files ∙ rw (sym same_key ∙ e) refl)
        | inr e ↦ rw (e, same, sym same_key ∙ e) refl
      ]
  | inr apart ↦ elim (Bool-cases (mem j names)) [
    | inl e ↦ rw (e, apart) (has_key-without names p files)
    | inr e ↦ rw (e, apart) (has_key-without names p files)
  ]
]

without-without :
    (names : List String) (files : Files)
    → without names (without names files) ≡ without names files
without-without names [] = refl
without-without names ((j, f) ∷ files) = elim (Bool-cases (mem j names)) [
  | inl e ↦ rw e (without-without names files)
  | inr e ↦ rw (e, e) (ap (λ fs. (j, f) ∷ fs) (without-without names files))
]

-- The files of the collector, and those that the globs find.
abbrev pub listed : List String → List String
listed leftovers =
    "etc/systemd/system/terminal-status-panel-collect.service"
    ∷ "etc/systemd/system/terminal-status-panel-collect.timer"
    ∷ "usr/lib/terminal-status-panel/keepalived-dump" ∷ "run/terminal-status-panel/host.json"
    ∷ "run/terminal-status-panel/keepalived.json" ∷ leftovers

-- systemctl is there and fails on the timer or on the service, whose unit file is there.
abbrev pub is_stuck : (List String → ℕ) → Files → Bool
is_stuck systemctl files =
    let timer = systemctl ("disable" ∷ "--now" ∷ "terminal-status-panel-collect.timer" ∷ []) in
    let service = systemctl ("stop" ∷ "terminal-status-panel-collect.service" ∷ []) in
    not (timer == 127)
    && ((not (timer == 0) && has_key "etc/systemd/system/terminal-status-panel-collect.timer" files)
        || (not (service == 127)
            && not (service == 0)
            && has_key "etc/systemd/system/terminal-status-panel-collect.service" files))

stop_units-stuck :
    (systemctl : List String → ℕ) (files : Files)
    → stop_units systemctl files ≡ not (is_stuck systemctl files)
unfolding stop_units
stop_units-stuck systemctl files = ground arith

all-mem-cons :
    (y : String) (xs ys : List String)
    → all (λ q. mem q ys) xs ≡ true
    → all (λ q. mem q (y ∷ ys)) xs ≡ true
all-mem-cons y [] ys h = refl
all-mem-cons y (x ∷ xs) ys h =
    let (first, rest) = and_true (mem x ys) (all (λ q. mem q ys) xs) h in
    rw (all-mem-cons y xs ys rest) (ground arith)

all-mem_self : (xs : List String) → all (λ q. mem q xs) xs ≡ true
all-mem_self [] = refl
all-mem_self (x ∷ xs) = rw (eq_refl x, all-mem-cons x xs xs (all-mem_self xs)) refl

any_gone :
    (names xs : List String) (files : Files)
    → all (λ q. mem q names) xs ≡ true
    → any (λ path. has_key path (without names files)) xs ≡ false
any_gone names [] files h = refl
any_gone names (x ∷ xs) files h =
    let (first, rest) = and_true (mem x names) (all (λ q. mem q names) xs) h in
    rw (has_key-without names x files, first) (any_gone names xs files rest)

not_stuck_again :
    (again : List String → ℕ) (leftovers : List String) (files : Files)
    → is_stuck again (without (listed leftovers) files) ≡ false
not_stuck_again again leftovers files =
    rw
      (
        has_key-without (listed leftovers) "etc/systemd/system/terminal-status-panel-collect.timer"
            files,
        has_key-without (listed leftovers)
            "etc/systemd/system/terminal-status-panel-collect.service" files,
      )
      (ground arith)

again_finds_nothing :
    (again : List String → ℕ) (leftovers : List String) (files : Files)
    → remove_collector again leftovers (without (listed leftovers) files)
      ≡ (nothing_to_remove, without (listed leftovers) files)
unfolding remove_collector
again_finds_nothing again leftovers files =
    rw
      (
        stop_units-stuck again (without (listed leftovers) files),
        not_stuck_again again leftovers files,
        any_gone (listed leftovers) (listed leftovers) files (all-mem_self (listed leftovers)),
        without-without (listed leftovers) files,
      )
      refl

module _ (systemctl again : List String → ℕ) (leftovers : List String) (files : Files)
    (p : String) where
  -- A removal for which systemctl is there and fails on the timer or on the service, the unit file
  -- being there, reports a failure and leaves every file. Any other takes away the two units, the
  -- program of the dump, the two files of the runtime directory and what the globs find, and no other
  -- path; a second removal, whatever systemctl says to it, then finds nothing to remove.
  pub remove_collector_gone :
      ((is_stuck systemctl files ≡ true)
        × (remove_collector systemctl leftovers files ≡ (failed, files)))
      ⊎ ((is_stuck systemctl files ≡ false)
          × (lookup p ((remove_collector systemctl leftovers files).1)
              ≡ (if mem p (listed leftovers) then none else lookup p files))
          × (remove_collector again leftovers ((remove_collector systemctl leftovers files).1)
              ≡ (nothing_to_remove, (remove_collector systemctl leftovers files).1)))
  unfolding remove_collector
  remove_collector_gone = elim (Bool-cases (is_stuck systemctl files)) [
    | inl e ↦ inl (e, rw (stop_units-stuck systemctl files, e) refl)
    | inr e ↦ inr (
      e,
      rw (stop_units-stuck systemctl files, e) (lookup-without (listed leftovers) p files),
      ap (λ r. remove_collector again leftovers r) (files_left e)
          ∙ again_finds_nothing again leftovers files
          ∙ ap (λ r. (nothing_to_remove, r)) (sym (files_left e)),
    )
  ]
    where
      files_left :
          is_stuck systemctl files ≡ false
          → (remove_collector systemctl leftovers files).1 ≡ without (listed leftovers) files
      files_left e = rw (stop_units-stuck systemctl files, e) refl
