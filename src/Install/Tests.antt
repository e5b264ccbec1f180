-- ===== src/Install/Tests.antt =====
-- install.py on a profile with an alias in it.
use terminal_status_panel.Base.{◌≡◌, refl, true, false, some, [], ◌∷◌, ◌++◌, Text, codes}
use terminal_status_panel.Install.{
  full, docker, block, Stored, apply, begin_mark, end_mark, rstrip_newlines, starts_with, updated,
  with_block, render_managed_block,
}
use terminal_status_panel.Install.Marks.{occurs}
use terminal_status_panel.Install.Profile.{apply_back, updated_dangling}

abbrev profile : Stored
profile = record { text = codes "alias ll=ls\n"; mode = some 420 }

apply_back_example :
    (g : Stored) × ((apply block []
        (full ∷ [])
        true
        false
        (apply block [] (full ∷ []) false false (some profile)).1).1
      ≡ some g)
    × (rstrip_newlines g.text ≡ rstrip_newlines (codes "alias ll=ls\n"))
    × (g.mode ≡ some 420)
unfolding starts_with
apply_back_example = apply_back [] (full ∷ []) profile refl

alias_clear : occurs begin_mark (codes "alias ll=ls") ≡ false
unfolding starts_with
alias_clear = refl

abbrev broken : Text
broken = codes "alias ll=ls" ++ (begin_mark ++ codes "export A=1")

broken-no_end : occurs end_mark broken ≡ false
unfolding starts_with
broken-no_end = refl

updated_dangling_example :
    updated (docker ∷ []) (updated (full ∷ []) broken)
    ≡ with_block (rstrip_newlines (codes "alias ll=ls")) (render_managed_block (docker ∷ []))
updated_dangling_example =
    updated_dangling (full ∷ []) (docker ∷ []) (codes "alias ll=ls") (codes "export A=1")
      alias_clear broken-no_end
