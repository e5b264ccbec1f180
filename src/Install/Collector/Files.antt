-- ===== src/Install/Collector/Files.antt =====
-- install.py: what the installation of the collector leaves on the disk, the installation run
-- again, and the removal.
use terminal_status_panel.Base.{
  ℕ, ◌≡◌, refl, ap, ◌∙◌, ◌⊎◌, inl, inr, Bool, true, false, not, ◌&&◌, some, List, [], ◌∷◌, String,
  Text, str_eq, All, ==_refl, or_false, and_true, not-true, Bool-cases,
}
use terminal_status_panel.Base.Dict.{lookup, has_key, lookup-update, lookup-update_other}
use terminal_status_panel.Install.Collector.{
  Resources, UnitFile, Files, render_collector_units, targets, same_text, is_same, install_file,
  install_files, Report, report, apply_collector,
}

same_text_refl : (s : Text) → same_text s s ≡ true
unfolding same_text
same_text_refl [] = refl
same_text_refl (c ∷ s) = rw (==_refl c, same_text_refl s)

is_same_refl : (f : UnitFile) → is_same f (some f) ≡ true
is_same_refl f = rw (same_text_refl f.text, ==_refl f.mode)

-- The file is there, with its text and its mode.
abbrev pub IsInstalled : Files → String × UnitFile → Type 0
IsInstalled files (path, f) = is_same f (lookup path files) ≡ true

install_file-IsInstalled :
    (path : String) (f : UnitFile) (files : Files)
    → IsInstalled ((install_file path f files).0) (path, f)
unfolding install_file
install_file-IsInstalled path f files = elim (Bool-cases (is_same f (lookup path files))) [
  | inl e ↦ rw (e, e)
  | inr e ↦ rw e (rw (lookup-update path (λ old. f) files) (is_same_refl f))
]

install_file_other :
    (p path : String) (f : UnitFile) (files : Files)
    → str_eq path p ≡ false
    → lookup p ((install_file path f files).0) ≡ lookup p files
unfolding install_file
install_file_other p path f files h = elim (Bool-cases (is_same f (lookup path files))) [
  | inl e ↦ rw e
  | inr e ↦ rw e (lookup-update_other path p (λ old. f) files h)
]

pub install_files_other :
    (p : String) (fs files : Files)
    → has_key p fs ≡ false
    → lookup p ((install_files fs files).0) ≡ lookup p files
unfolding install_files
install_files_other p [] files h = refl
install_files_other p ((path, f) ∷ fs) files h =
    let (apart, later) = or_false (str_eq path p) (has_key p fs) h in
    install_files_other p fs ((install_file path f files).0) later
    ∙ install_file_other p path f files apart

-- No path stands in the list twice.
abbrev pub distinct : Files → Bool
distinct [] = true
distinct ((path, f) ∷ fs) = not (has_key path fs) && distinct fs

pub install_files-IsInstalled :
    (fs files : Files) → distinct fs ≡ true → All (IsInstalled ((install_files fs files).0)) fs
unfolding install_files
install_files-IsInstalled [] files h = tt
install_files-IsInstalled ((path, f) ∷ fs) files h =
    let (apart, later) = and_true (not (has_key path fs)) (distinct fs) h in
    let files' = (install_file path f files).0 in
    (
      ap (is_same f) (install_files_other path fs files' (not-true (has_key path fs) apart))
          ∙ install_file-IsInstalled path f files,
      install_files-IsInstalled fs files' later,
    )

pub install_files_kept :
    (fs files : Files) → All (IsInstalled files) fs → install_files fs files ≡ (files, false)
unfolding install_files install_file
install_files_kept [] files h = refl
install_files_kept ((path, f) ∷ fs) files (h, hs) = rw h (rw (install_files_kept fs files hs))

targets-distinct : (r : Resources) (units : Text × Text) → distinct (targets r units) ≡ true
targets-distinct r (service, timer) = refl

module _ (systemctl : List String → ℕ) (r : Resources) (bin_dir : Text) where
  -- For a directory that gives units, the installation ends with a report. The program of the dump
  -- and the two units are then there with their text and mode, every other path is as before, and a
  -- second installation changes no file: it only looks whether the timer runs, and starts it if not.
  pub apply_collector_again :
      (leftovers : List String) (files : Files) (units : Text × Text) (p : String)
      → render_collector_units r bin_dir ≡ some units
      → (said : Report) × (files' : Files) × (apply_collector systemctl r bin_dir false leftovers
            files
          ≡ some (said, files'))
        × All (IsInstalled files') (targets r units)
        × ((has_key p (targets r units) ≡ true) ⊎ (lookup p files' ≡ lookup p files))
        × (apply_collector systemctl r bin_dir false leftovers files'
            ≡ some (report systemctl false, files'))
  unfolding apply_collector
  apply_collector_again leftovers files units p e =
      let fs = targets r units in
      let there = install_files-IsInstalled fs files (targets-distinct r units) in
      (
        report systemctl ((install_files fs files).1),
        (install_files fs files).0,
        rw e,
        there,
        elim (Bool-cases (has_key p fs)) [
          | inl h ↦ inl h
          | inr h ↦ inr (install_files_other p fs files h)
        ],
        rw (e, install_files_kept fs ((install_files fs files).0) there),
      )
