-- ===== src/Follow/Rows.antt =====
-- follow.py: what `crop` keeps and how long `next_delay` waits.
use terminal_status_panel.Base.{
  ℕ, ◌+◌, ◌*◌, ◌-◌, ◌≤◌, ◌<◌, ◌≡◌, refl, ◌⊎◌, sym, max, List, [], ◌++◌, append-nil, arith, length,
  drop, length-take, length-drop, take-append-drop, Bool-cases, leb, leb→le, leb→lt, inl, inr,
}
use terminal_status_panel.Follow.{next_delay, crop}

-- On a console of at least one row: the kept lines are a prefix of the given ones, the count is
-- exactly the number of lines left out, the kept lines and the status row fit the height, and
-- lines are left out only when the height is filled.
pub crop_lem {ℓ} :
    {A : Type ℓ} (lines : List A) (height : ℕ)
    → 0 < height
    → (rest : List A) × (lines ≡ (crop lines height).0 ++ rest)
      × ((crop lines height).1 ≡ length rest)
      × (length (crop lines height).0 + 1 ≤ height)
      × ((rest ≡ []) ⊎ (length (crop lines height).0 + 1 ≡ height))
unfolding crop
crop_lem lines height h = elim (Bool-cases (leb height 0)) [
  | inl e ↦ absurd (omega (arith, leb→le height 0 e))
  | inr e ↦ elim (Bool-cases (leb (length lines) (height - 1))) [
    | inl fits ↦
        rw (e, fits) ([], sym (append-nil lines), refl, omega (arith, leb→le _ _ fits), inl refl)
    | inr long ↦
        rw (e, long)
          (
            drop (height - 1) lines,
            sym (take-append-drop (height - 1) lines),
            sym (length-drop (height - 1) lines),
            omega (arith, length-take (height - 1) lines, leb→lt _ _ long),
            inr (omega (arith, length-take (height - 1) lines, leb→lt _ _ long)),
          )
  ]
]

-- A pass and its wait together last the interval, or twice the pass where that is longer; so the
-- wait is never shorter than the pass.
pub next_delay_lem :
    (interval elapsed : ℕ)
    → (elapsed + next_delay interval elapsed ≡ max interval (2 * elapsed))
      × (elapsed ≤ next_delay interval elapsed)
unfolding next_delay
next_delay_lem interval elapsed = (omega arith, omega arith)
