-- ===== src/Install/Collector.antt =====
-- install.py: the units of the collector, `apply_collector` and what it calls. Paths are relative to
-- the root. The package's data files are the record `Resources`; systemctl is a function from its
-- arguments to the exit code; the paths that a glob finds are arguments. Empty directories are not
-- modelled.
pub mod Files
pub mod Removal
mod Tests
use text.Mathlib.Text.{starts_with as begins}
use terminal_status_panel.Base.{
  ℕ, zero, suc, ◌-◌, Bool, true, false, not, ◌&&◌, ◌||◌, Option, none, some, List, [], ◌∷◌, ◌++◌,
  String, ◌<>◌, Text, codes, length, all, any, leb, ◌==◌, str_eq, if◌then◌else◌,
}
use terminal_status_panel.Base.Dict.{lookup, has_key, without, update}
use terminal_status_panel.Install.{starts_with, is_nil}

abbrev pub service_unit : String
service_unit = "terminal-status-panel-collect.service"

abbrev pub timer_unit : String
timer_unit = "terminal-status-panel-collect.timer"

abbrev pub dump_path : String
dump_path = "usr/lib/terminal-status-panel/keepalived-dump"

abbrev pub unit_path : String → String
unit_path name = "etc/systemd/system/" <> name

pub record Resources : Type 0 where
  pub dump : Text
  pub service_template : Text
  pub timer : Text

pub record UnitFile : Type 0 where
  pub text : Text
  pub mode : ℕ

abbrev pub Files : Type 0
Files = List (String × UnitFile)

-- `s.replace(old, new)` behind the next `skip` characters, for an `old` that is not empty.
pub replace_from : ℕ → Text → Text → Text → Text
replace_from skip old new [] = []
replace_from (suc skip) old new (c ∷ s) = replace_from skip old new s
replace_from zero old new (c ∷ s) =
    let found = starts_with old (c ∷ s) in
    let rest = replace_from (if found then length old - 1 else 0) old new s in
    if found then new ++ rest else c ∷ rest

-- `s.rstrip("/")`
pub rstrip_slashes : Text → Text
rstrip_slashes [] = []
rstrip_slashes (c ∷ s) =
    let rest = rstrip_slashes s in if c == b'/' && is_nil rest then [] else c ∷ rest

abbrev is_plain : ℕ → Bool
is_plain c =
    (leb b'A' c && leb c b'Z')
    || (leb b'a' c && leb c b'z')
    || (leb b'0' c && leb c b'9')
    || c == b'.'
    || c == b'_'
    || c == b'+'
    || c == b'/'
    || c == b'-'

-- `_BIN_DIR_PATTERN.fullmatch(bin_dir)`
pub is_plain_path : Text → Bool
is_plain_path [] = false
is_plain_path (c ∷ s) = c == b'/' && not (is_nil s) && all is_plain s

-- `render_collector_units`: the texts of the service and of the timer, `none` for a `ValueError`.
pub render_collector_units : Resources → Text → Option (Text × Text)
render_collector_units r bin_dir =
    if is_plain_path bin_dir
    then some
        (replace_from 0 (codes "{bin_dir}") (rstrip_slashes bin_dir) r.service_template, r.timer)
    else none

abbrev is_hidden : String → Bool
is_hidden candidate =
    any (λ hidden. str_eq candidate hidden || begins candidate (hidden <> "/"))
      ("/home" ∷ "/root" ∷ "/run/user" ∷ [])

pub data BinDirError : Type 0 where
  unsafe_path hidden missing : BinDirError

-- `check_collector_bin_dir`, with the resolved path and whether `status-collect` is a file there.
pub check_collector_bin_dir : Resources → String → String → Bool → Option BinDirError
check_collector_bin_dir r bin_dir resolved has_script =
    if not (is_plain_path (codes bin_dir))
    then some unsafe_path
    else if is_hidden bin_dir || is_hidden resolved
    then some hidden
    else if not has_script
    then some missing
    else none

abbrev pub no_systemctl : ℕ
no_systemctl = 127

-- The files to install: each with its path. 493 is `0o755` and 420 is `0o644`.
abbrev pub targets : Resources → Text × Text → Files
targets r (service, timer) =
    (dump_path, record { text = r.dump; mode = 493 })
    ∷ (unit_path service_unit, record { text = service; mode = 420 })
    ∷ (unit_path timer_unit, record { text = timer; mode = 420 })
    ∷ []

-- The texts are equal.
pub same_text : Text → Text → Bool
same_text [] [] = true
same_text [] (b ∷ t) = false
same_text (a ∷ s) [] = false
same_text (a ∷ s) (b ∷ t) = a == b && same_text s t

abbrev pub is_same : UnitFile → Option UnitFile → Bool
is_same f none = false
is_same f (some g) = same_text g.text f.text && g.mode == f.mode

-- One round of the loop over `texts`: the files, and whether this one was changed. A file with
-- the text gets the mode, any other is written with both.
pub install_file : String → UnitFile → Files → Files × Bool
install_file path f files =
    if is_same f (lookup path files) then (files, false) else (update path (λ old. f) files, true)

pub install_files : Files → Files → Files × Bool
install_files [] files = (files, false)
install_files ((path, f) ∷ more) files =
    let (files', changed) = install_file path f files in
    let (files'', later) = install_files more files' in (files'', changed || later)

pub data Report : Type 0 where
  written activated unchanged removed nothing_to_remove failed : Report

module _ (systemctl : List String → ℕ) where
  -- `_timer_running`
  pub timer_running : Bool
  timer_running =
      systemctl ("is-enabled" ∷ "--quiet" ∷ timer_unit ∷ []) == 0
      && systemctl ("is-active" ∷ "--quiet" ∷ timer_unit ∷ []) == 0

  -- `_activate`
  pub activate : Bool
  activate =
      systemctl ("daemon-reload" ∷ []) == 0 && systemctl ("enable" ∷ "--now" ∷ timer_unit ∷ []) == 0

  abbrev stop_service : Files → Bool
  stop_service files =
      let code = systemctl ("stop" ∷ service_unit ∷ []) in
      code == no_systemctl || not (not (code == 0) && has_key (unit_path service_unit) files)

  -- `_stop_units`
  pub stop_units : Files → Bool
  stop_units files =
      let code = systemctl ("disable" ∷ "--now" ∷ timer_unit ∷ []) in
      if code == no_systemctl
      then true
      else if not (code == 0) && has_key (unit_path timer_unit) files
      then false
      else stop_service files

  abbrev pub doomed : List String → List String
  doomed leftovers =
      unit_path service_unit
      ∷ unit_path timer_unit
      ∷ dump_path
      ∷ "run/terminal-status-panel/host.json"
      ∷ "run/terminal-status-panel/keepalived.json"
      ∷ leftovers

  -- `_remove_collector`, with the other files that its globs find.
  pub remove_collector : List String → Files → Report × Files
  remove_collector leftovers files =
      let found = any (λ path. has_key path files) (doomed leftovers) in
      let code = systemctl ("daemon-reload" ∷ []) in
      if not (stop_units files) then (failed, files) else (
        if found && not (code == 0 || code == no_systemctl)
            then failed
            else if found
            then removed
            else nothing_to_remove,
        without (doomed leftovers) files,
      )

  abbrev pub report : Bool → Report
  report changed =
      if changed
      then (if activate then written else failed)
      else if timer_running
      then unchanged
      else if activate
      then activated
      else failed

  -- `apply_collector`, `none` for the `ValueError` of a directory that is not a plain path.
  pub apply_collector : Resources → Text → Bool → List String → Files → Option (Report × Files)
  apply_collector r bin_dir uninstall leftovers files =
      if uninstall
      then some (remove_collector leftovers files)
      else (elim (render_collector_units r bin_dir) [
        | none ↦ none
        | some units ↦
            let (files', changed) = install_files (targets r units) files in
            some (report changed, files')
      ])
