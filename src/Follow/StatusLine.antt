-- ===== src/Follow/StatusLine.antt =====
-- follow.py: `status_line` fits its width, and the widths at which the stop hint survives.
use terminal_status_panel.Base.{
  ℕ, ◌+◌, ◌-◌, ◌≤◌, ◌<◌, ◌≡◌, refl, sym, ap, zero, suc, le→leb, ◌⊎◌, ◌≢◌, inl, inr, true, Option,
  none, some, List, [], ◌∷◌, ◌++◌, arith, Text, length, take, drop, length-take, length-drop,
  take_all, take-append-drop, Bool-cases, leb, ltb, leb→lt, ltb→lt, ltb→le, lt→ltb, le→ltb, lt→leb,
  subst, Option-cases, if◌then◌else◌, is_some,
}
use native.Mathlib.Nat.{le_of_eq}
use mathlib.Core.Option.{some-injective}
use terminal_status_panel.Follow.{
  present, row, stop_hint, hidden_part, truthy, shortened, interval_part, shorten, without_full,
  status_line,
}
use terminal_status_panel.Follow.Joined.{
  EndsIn, row-EndsIn, length-row_insert, length-row_insert_eq, length-row_hidden,
}

length-take_le {ℓ} : {A : Type ℓ} (n : ℕ) (xs : List A) → length (take n xs) ≤ n
length-take_le n xs = omega (arith, length-take n xs)

-- `if len(x) <= width: return x`, before what is returned otherwise.
length-fit :
    (x y : Text) (width : ℕ)
    → length y ≤ width
    → length (if leb (length x) width then x else y) ≤ width
length-fit x y width h = ground arith

abbrev pub kept_row : Option Text → Text → Text
kept_row prefix interval = row (prefix ∷ some interval ∷ some stop_hint ∷ [])

abbrev pub minimal_row : Text → Text
minimal_row interval = row (some interval ∷ some stop_hint ∷ [])

abbrev pub error_row : Option Text → Text → Text → Text
error_row prefix interval error = row (prefix ∷ some interval ∷ some error ∷ some stop_hint ∷ [])

kept_row_zero :
    (hidden : ℕ) (interval : Text)
    → hidden ≡ 0
    → kept_row (hidden_part hidden) interval ≡ minimal_row interval
unfolding hidden_part row present
kept_row_zero hidden interval z = rw z

length-minimal_le :
    (hidden : ℕ) (interval : Text)
    → length (minimal_row interval) ≤ length (kept_row (hidden_part hidden) interval)
length-minimal_le zero interval = le_of_eq (ap length (sym (kept_row_zero zero interval refl)))
length-minimal_le (suc hidden) interval =
    omega (arith, length-row_hidden (suc hidden) interval (omega arith))

module _ (interval error : Text) (width : ℕ) where
  abbrev part : Option Text → Text
  part prefix = take (width - (length (kept_row prefix interval) + 3)) error

  abbrev cut : Option Text → Text
  cut prefix = error_row prefix interval (part prefix)

  -- The row with the shortened error already fits, so its last cut takes nothing away.
  take-error_row :
      (prefix : Option Text)
      → length (kept_row prefix interval) + 3 < width
      → take width (cut prefix) ≡ cut prefix
  take-error_row prefix h = take_all width (cut prefix) (
      omega (
        arith,
        length-row_insert (prefix ∷ some interval ∷ []) (part prefix),
        length-take_le (width - (length (kept_row prefix interval) + 3)) error,
      ))

  shortened-EndsIn :
      (prefixes : List (Option Text)) (line : Text)
      → shortened interval error width prefixes ≡ some line
      → (length line ≤ width) × EndsIn stop_hint line
  unfolding shortened
  shortened-EndsIn [] line e = cc
  shortened-EndsIn (prefix ∷ prefixes) line e =
      elim (Bool-cases (ltb (length (kept_row prefix interval) + 3) width)) [
        | inl room ↦
            subst (λ l. (length l ≤ width) × EndsIn stop_hint l)
              (some-injective (take width (cut prefix)) line (rw room at e))
              (
                length-take_le width (cut prefix),
                rw (take-error_row prefix (ltb→lt _ _ room))
                    (row-EndsIn (prefix ∷ some interval ∷ some (part prefix) ∷ [])),
              )
        | inr narrow ↦ shortened-EndsIn prefixes line (rw narrow at e)
      ]

  -- With room beside the cadence alone, the loop returns a line.
  shortened-ne-none :
      (prefixes : List (Option Text))
      → length (minimal_row interval) + 3 < width
      → shortened interval error width (prefixes ++ (none ∷ [])) ≢ none
  unfolding shortened row present
  shortened-ne-none [] h e = cc (rw (lt→ltb _ _ h) at e)
  shortened-ne-none (prefix ∷ prefixes) h e =
      elim (Bool-cases (ltb (length (kept_row prefix interval) + 3) width)) [
        | inl room ↦ cc (rw room at e)
        | inr narrow ↦ shortened-ne-none prefixes h (rw narrow at e)
      ]

  -- Without that room, and with the hidden-line count too wide as well, it returns none.
  shortened-eq-none :
      (prefix : Option Text)
      → width ≤ length (minimal_row interval) + 3
      → width ≤ length (kept_row prefix interval) + 3
      → shortened interval error width (prefix ∷ none ∷ []) ≡ none
  unfolding shortened row present
  shortened-eq-none prefix h k = rw (le→ltb _ _ k, le→ltb _ _ h)

is_some-hidden_part : (hidden : ℕ) → 0 < hidden → is_some (hidden_part hidden) ≡ true
unfolding hidden_part
is_some-hidden_part hidden h = rw (lt→ltb 0 hidden h)

module _ (show_g : ℕ → Text) where
  module _ (hidden : ℕ) (interval : Text) (width : ℕ) (error : Text) where
    abbrev prefixes : List (Option Text)
    prefixes = if is_some (hidden_part hidden) then hidden_part hidden ∷ [] else []

    shorten-le : length (shorten show_g hidden interval width error) ≤ width
    unfolding shorten
    shorten-le =
        length-fit _ _ width
          (elim (Option-cases (shortened interval error width (prefixes ++ (none ∷ [])))) [
            | inl e ↦ rw e (length-take_le width _)
            | inr (line, e) ↦ rw e (shortened-EndsIn interval error width _ line e).0
          ])

    shorten-EndsIn :
        length (minimal_row interval) ≤ width
        → (hidden ≡ 0) ⊎ (length (minimal_row interval) + 3 < width)
        → EndsIn stop_hint (shorten show_g hidden interval width error)
    unfolding shorten
    shorten-EndsIn m h =
        elim (Bool-cases (leb (length (kept_row (hidden_part hidden) interval)) width)) [
          | inl fits ↦ rw fits (row-EndsIn (hidden_part hidden ∷ some interval ∷ []))
          | inr long ↦
              elim (Option-cases (shortened interval error width (prefixes ++ (none ∷ [])))) [
                | inl e ↦ elim h [
                  | inl z ↦
                      absurd (
                        omega (arith, leb→lt _ _ long, ap length (kept_row_zero hidden interval z)))
                  | inr room ↦ absurd (shortened-ne-none interval error width prefixes room e)
                ]
                | inr (line, e) ↦ rw (long, e) (shortened-EndsIn interval error width _ line e).1
              ]
        ]

    shorten_cut :
        0 < hidden
        → width ≤ length (minimal_row interval) + 3
        → shorten show_g hidden interval width error
          ≡ take width (kept_row (hidden_part hidden) interval)
    unfolding shorten
    shorten_cut pos high =
        let wider = length-row_hidden hidden interval pos in
        rw (
          lt→leb (length (kept_row (hidden_part hidden) interval)) width (omega arith),
          is_some-hidden_part hidden pos,
          shortened-eq-none interval error width (hidden_part hidden) high (omega arith),
        )

  without_full-EndsIn :
      (hidden interval width : ℕ) (error : Option Text)
      → length (minimal_row (interval_part show_g interval)) ≤ width
      → (hidden ≡ 0)
        ⊎ (error ≡ none)
        ⊎ (length (minimal_row (interval_part show_g interval)) + 3 < width)
      → EndsIn stop_hint (without_full show_g hidden interval width error)
  unfolding without_full
  without_full-EndsIn hidden interval width none m h =
      row-EndsIn (some (interval_part show_g interval) ∷ [])
  without_full-EndsIn hidden interval width (some []) m h =
      row-EndsIn (some (interval_part show_g interval) ∷ [])
  without_full-EndsIn hidden interval width (some (c ∷ s)) m (inl z) =
      shorten-EndsIn hidden (interval_part show_g interval) width (c ∷ s) m (inl z)
  without_full-EndsIn hidden interval width (some (c ∷ s)) m (inr (inl e)) = cc
  without_full-EndsIn hidden interval width (some (c ∷ s)) m (inr (inr room)) =
      shorten-EndsIn hidden (interval_part show_g interval) width (c ∷ s) m (inr room)

  without_full-le :
      (hidden interval width : ℕ) (error : Option Text)
      → length (minimal_row (interval_part show_g interval)) ≤ width
      → length (without_full show_g hidden interval width error) ≤ width
  unfolding without_full
  without_full-le hidden interval width none h = h
  without_full-le hidden interval width (some []) h = h
  without_full-le hidden interval width (some (c ∷ s)) h =
      shorten-le hidden (interval_part show_g interval) width (c ∷ s)

  -- Whatever is hidden, however long the error and the interval's text: the status row fits the width.
  pub status_line-le :
      (hidden interval width : ℕ) (error : Option Text)
      → length (status_line show_g hidden interval width error) ≤ width
  unfolding status_line
  status_line-le hidden interval width error =
      length-fit _ _ width
        (elim (Bool-cases (ltb width (length (minimal_row (interval_part show_g interval))))) [
          | inl narrow ↦ rw narrow (length-take_le width stop_hint)
          | inr wide ↦ rw wide (without_full-le hidden interval width error (ltb→le _ _ wide))
        ])

  -- At a width of at least the stop hint, the row ends in the stop hint, provided that no line is
  -- hidden, or there is no error, or more than three cells are left beside the cadence and the
  -- hint.
  pub status_line-EndsIn :
      (hidden interval width : ℕ) (error : Option Text)
      → length stop_hint ≤ width
      → (hidden ≡ 0)
        ⊎ (error ≡ none)
        ⊎ (length (minimal_row (interval_part show_g interval)) + 3 < width)
      → EndsIn stop_hint (status_line show_g hidden interval width error)
  unfolding status_line
  status_line-EndsIn hidden interval width error w h =
      let interval_str = interval_part show_g interval in
      let full = hidden_part hidden ∷ some interval_str ∷ error ∷ [] in
      elim (Bool-cases (leb (length (row (full ++ (some stop_hint ∷ [])))) width)) [
        | inl fits ↦ rw fits (row-EndsIn full)
        | inr long ↦ elim (Bool-cases (ltb width (length (minimal_row interval_str)))) [
          | inl narrow ↦ rw (long, narrow) ([], take_all width stop_hint w)
          | inr wide ↦
              rw (long, wide) (without_full-EndsIn hidden interval width error (ltb→le _ _ wide) h)
        ]
      ]

  -- With lines hidden and an error to show, at a width that holds the cadence and the hint with at
  -- most three cells to spare, the row is the one with the hidden-line count, cut at its end by a
  -- text that is not empty: the stop hint does not survive whole.
  pub status_line_cut :
      (hidden interval width : ℕ) (text : Text)
      → 0 < hidden
      → truthy (some text) ≡ true
      → length (minimal_row (interval_part show_g interval)) ≤ width
      → width ≤ length (minimal_row (interval_part show_g interval)) + 3
      → (lost : Text) × (0 < length lost)
        × (status_line show_g hidden interval width (some text) ++ lost
            ≡ kept_row (hidden_part hidden) (interval_part show_g interval))
  unfolding status_line without_full
  status_line_cut hidden interval width text pos t low high =
      let interval_str = interval_part show_g interval in
      let kept = kept_row (hidden_part hidden) interval_str in
      let wider = length-row_hidden hidden interval_str pos in
      let longer = length-row_insert_eq (hidden_part hidden ∷ some interval_str ∷ []) text t in
      (
        drop width kept,
        omega (arith, length-drop width kept),
        rw
            (
              lt→leb (length (error_row (hidden_part hidden) interval_str text)) width
                  (omega arith),
              le→ltb _ _ low,
              t,
              shorten_cut hidden interval_str width text pos high,
            )
            (take-append-drop width kept),
      )

  -- An error that does not fit whole is dropped, and not shortened, wherever the row without it
  -- fits.
  pub status_line_drops :
      (hidden interval width : ℕ) (text : Text)
      → truthy (some text) ≡ true
      → length (kept_row (hidden_part hidden) (interval_part show_g interval)) ≤ width
      → width < length (error_row (hidden_part hidden) (interval_part show_g interval) text)
      → status_line show_g hidden interval width (some text)
        ≡ kept_row (hidden_part hidden) (interval_part show_g interval)
  unfolding status_line without_full shorten
  status_line_drops hidden interval width text t fits long = rw (
    lt→leb _ _ long,
    le→ltb width (length (minimal_row (interval_part show_g interval)))
        (omega (arith, length-minimal_le hidden (interval_part show_g interval))),
    t,
    le→leb _ _ fits,
  )
