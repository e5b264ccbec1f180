-- ===== src/Install.antt =====
-- src/terminal_status_panel/install.py: the managed block in a login shell's profile. A file is its
-- text, and its mode where `chmod` has set one; `none` is a file that does not exist. `$SHELL`, the
-- home directory and whether `~/.bash_profile` exists are arguments.
pub mod Marks
pub mod Profile
pub mod Collector
mod Tests
use terminal_status_panel.Base.{
  ℕ, zero, suc, ◌-◌, Bool, true, false, not, ◌&&◌, Option, none, some, List, [], ◌∷◌, ◌++◌, map,
  String, Text, codes, length, drop, joined, ◌==◌, if◌then◌else◌,
}

pub data Panel : Type 0 where
  full server docker health traefik trouble : Panel

-- `PANELS`
abbrev pub command : Panel → Text
command full = codes "status-full"
command server = codes "status-server"
command docker = codes "status-docker"
command health = codes "status-health"
command traefik = codes "status-traefik"
command trouble = codes "status-trouble"

abbrev pub begin_mark : Text
begin_mark = codes "# >>> terminal-status-panel >>>"

abbrev pub end_mark : Text
end_mark = codes "# <<< terminal-status-panel <<<"

-- `f"command -v {c} >/dev/null 2>&1 && {c}"`
abbrev pub invocation : Text → Text
invocation c = codes "command -v " ++ (c ++ (codes " >/dev/null 2>&1 && " ++ c))

pub render_profile_file : List Panel → Text
render_profile_file panels =
    joined (b'\n' ∷ []) (
      codes "# terminal-status-panel login banner (managed by 'install-panel')"
      ∷ codes "# Runs on interactive login shells, at full terminal width."
      ∷ codes "case $- in *i*) ;; *) return ;; esac"
      ∷ map (λ p. invocation (command p)) panels)
    ++ (b'\n' ∷ [])

-- What stands between the two marks.
pub block_body : List Panel → Text
block_body panels =
    b'\n'
    ∷ (codes "case $- in *i*) "
        ++ (joined (codes " ; ") (map (λ p. invocation (command p)) panels)
            ++ (codes " ;; esac" ++ (b'\n' ∷ []))))

pub render_managed_block : List Panel → Text
render_managed_block panels = begin_mark ++ (block_body panels ++ (end_mark ++ (b'\n' ∷ [])))

-- The text starts with a mark.
pub starts_with : Text → Text → Bool
starts_with [] s = true
starts_with (a ∷ p) [] = false
starts_with (a ∷ p) (b ∷ s) = a == b && starts_with p s

-- `\n?`
abbrev pub skip_newline : Text → Text
skip_newline [] = []
skip_newline (c ∷ s) = if c == b'\n' then s else c ∷ s

-- `.*?`, the end mark and `\n?`: what follows the first end mark, and a newline behind it.
pub after_end : Text → Option Text
after_end [] = none
after_end (c ∷ s) =
    let later = after_end s in
    if starts_with end_mark (c ∷ s)
    then some (skip_newline (drop (length end_mark) (c ∷ s)))
    else later

-- The length of the match of the whole pattern at the start of the text, 0 without one.
pub match_length : Text → ℕ
match_length s =
    if starts_with begin_mark s
    then (elim (after_end (drop (length begin_mark) s)) [
      | none ↦ 0
      | some rest ↦ length s - length rest
    ])
    else 0

-- `pattern.sub("", text)` behind the next `skip` characters, which belong to a match.
pub strip_from : ℕ → Text → Text
strip_from skip [] = []
strip_from (suc skip) (c ∷ s) = strip_from skip s
strip_from zero (c ∷ s) =
    let matched = match_length (c ∷ s) in
    let rest = strip_from (matched - 1) s in if matched == 0 then c ∷ rest else rest

pub strip_block : Text → Text
strip_block text = strip_from 0 text

abbrev pub is_nil : Text → Bool
is_nil [] = true
is_nil (c ∷ s) = false

-- `s.rstrip("\n")`
pub rstrip_newlines : Text → Text
rstrip_newlines [] = []
rstrip_newlines (c ∷ s) =
    let rest = rstrip_newlines s in if c == b'\n' && is_nil rest then [] else c ∷ rest

pub data Scope : Type 0 where
  global user : Scope

pub data Shell : Type 0 where
  auto bash zsh : Shell

pub data Kind : Type 0 where
  file block : Kind

abbrev detected : Scope → Bool → Shell
detected global zsh_login = bash
detected user zsh_login = if zsh_login then zsh else bash

abbrev target : Scope → Shell → Text → Bool → Kind × Text
target global zsh home has_profile = (block, codes "/etc/zsh/zprofile")
target global _ home has_profile = (file, codes "/etc/profile.d/zz-terminal-status-panel.sh")
target user zsh home has_profile = (block, home ++ codes "/.zprofile")
target user _ home has_profile =
    (block, home ++ (if has_profile then codes "/.bash_profile" else codes "/.profile"))

abbrev resolved : Scope → Bool → Shell → Shell
resolved scope zsh_login auto = detected scope zsh_login
resolved scope zsh_login bash = bash
resolved scope zsh_login zsh = zsh

-- `zsh_login` is whether `$SHELL` names zsh, `has_profile` whether `~/.bash_profile` exists.
pub resolve_target : Scope → Shell → Bool → Text → Bool → Kind × Text
resolve_target scope shell zsh_login home has_profile =
    target scope (resolved scope zsh_login shell) home has_profile

pub record Stored : Type 0 where
  pub text : Text
  pub mode : Option ℕ

-- `path.write_text(text)`, which leaves the mode of a file that is there.
abbrev pub written : Text → Option Stored → Stored
written text none = record { text = text; mode = none }
written text (some f) = record f { text = text }

abbrev pub existing_text : Option Stored → Text
existing_text none = []
existing_text (some f) = f.text

-- `(stripped + "\n\n" if stripped else "") + block`
abbrev pub with_block : Text → Text → Text
with_block [] block' = block'
with_block (c ∷ s) block' = (c ∷ s) ++ (b'\n' ∷ b'\n' ∷ block')

-- The text that an installed block is written with.
pub updated : List Panel → Text → Text
updated panels existing =
    with_block (rstrip_newlines (strip_block existing)) (render_managed_block panels)

abbrev apply_uninstall : Kind → Text → Bool → Option Stored → List Text × Option Stored
apply_uninstall file path dry_run none = ((codes "nothing to remove at " ++ path) ∷ [], none)
apply_uninstall file path dry_run (some f) =
    ((codes "remove " ++ path) ∷ [], if dry_run then some f else none)
apply_uninstall block path dry_run none = ((codes "nothing to remove in " ++ path) ∷ [], none)
apply_uninstall block path dry_run (some f) = (
  (codes "remove managed block from " ++ path) ∷ [],
  some (if dry_run then f else record f { text = strip_block f.text }),
)

abbrev apply_install : Kind → Text → List Panel → Bool → Option Stored → List Text × Option Stored
apply_install file path panels dry_run f = (
  (codes "write " ++ path) ∷ [],
  if dry_run then f else some (record { text = render_profile_file panels; mode = some 420 }),
)
apply_install block path panels dry_run f = (
  (codes "update managed block in " ++ path) ∷ [],
  if dry_run then f else some (written (updated panels (existing_text f)) f),
)

-- `apply`: the messages, and the file afterwards. 420 is `0o644`.
pub apply : Kind → Text → List Panel → Bool → Bool → Option Stored → List Text × Option Stored
apply kind path panels uninstall dry_run f =
    if uninstall
    then apply_uninstall kind path dry_run f
    else apply_install kind path panels dry_run f
