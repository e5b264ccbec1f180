-- ===== src/Collector/Apt/Counts.antt =====
-- collector/apt.py: the two counts, and what a failed simulation reports.
use terminal_status_panel.Base.{
  ℕ, zero, suc, true, false, is_some, count_of, ◌<◌, if◌then◌else◌, ◌≤◌, ◌≡◌, refl, ◌⊎◌, inl, inr,
  Bool, Option, none, some, List, [], ◌∷◌, String, splitlines, arith, ◌==◌, Bool-cases,
}
use terminal_status_panel.StateFile.{Num, UpdateCounts}
use terminal_status_panel.Collector.Apt.{
  is_security, add_line, count_lines, inst_origin, parse_simulation, Simulation, no_program,
  timed_out, refused, exited, counted, simulated, collect_updates,
}

-- A line that announces an update, and one that announces a security update.
abbrev pub is_update : String → Bool
is_update line = is_some (inst_origin line)

abbrev pub is_security_update : String → Bool
is_security_update line = elim (inst_origin line) [
  | none ↦ false
  | some origin ↦ is_security origin
]

-- One line adds to both counts what it announces.
add_line_lem :
    (line : String) (counts : ℕ × ℕ)
    → add_line (inst_origin line) counts ≡ (
      (if is_update line then suc counts.0 else counts.0),
      (if is_security_update line then suc counts.1 else counts.1),
    )
add_line_lem line counts = go (inst_origin line)
  where
    go :
        (o : Option String)
        → add_line o counts ≡ (
          (if is_some o then suc counts.0 else counts.0),
          (if (elim o [ none ↦ false | some origin ↦ is_security origin ])
              then suc counts.1
              else counts.1),
        )
    go none = refl
    go (some origin) = refl

count-cons :
    (p : String → Bool) (line : String) (lines : List String)
    → count_of p (line ∷ lines) ≡ (if p line then suc (count_of p lines) else count_of p lines)
count-cons p line lines = elim (Bool-cases (p line)) [ inl e ↦ rw e refl | inr e ↦ rw e refl ]

count_lines_lem :
    (lines : List String)
    → count_lines lines ≡ (count_of is_update lines, count_of is_security_update lines)
unfolding count_lines
count_lines_lem [] = refl
count_lines_lem (line ∷ lines) =
    rw
      (
        count_lines_lem lines,
        add_line_lem line,
        count-cons is_update line lines,
        count-cons is_security_update line lines,
      )
      refl

-- A security update is an update.
security_is_update : (line : String) → is_security_update line ≡ true → is_update line ≡ true
security_is_update line = go (inst_origin line)
  where
    go :
        (o : Option String)
        → (elim o [ none ↦ false | some origin ↦ is_security origin ]) ≡ true
        → is_some o ≡ true
    go none h = h
    go (some origin) h = refl

security-le : (lines : List String) → count_of is_security_update lines ≤ count_of is_update lines
security-le [] = omega arith
security-le (line ∷ lines) =
    let later = security-le lines in
    elim (Bool-cases (is_security_update line)) [
      | inl e ↦
          rw
            (
              count-cons is_update line lines,
              count-cons is_security_update line lines,
              e,
              security_is_update line e,
            )
            (omega arith)
      | inr e ↦ elim (Bool-cases (is_update line)) [
        | inl f ↦
            rw (count-cons is_update line lines, count-cons is_security_update line lines, e, f)
              (omega arith)
        | inr f ↦
            rw (count-cons is_update line lines, count-cons is_security_update line lines, e, f)
              (omega arith)
      ]
    ]

-- How a simulation fails, and the error code for it.
abbrev pub Failed : Simulation → Option String → Type 0
Failed simulation code =
    ((simulation ≡ timed_out) × (code ≡ some "timeout"))
    ⊎ (((simulation ≡ refused)
          ⊎ ((status : ℕ) × (text : String) × (simulation ≡ exited status text) × (0 < status)))
        × (code ≡ some "apt-failed"))

module _ {Real : Type 0} where
  -- Whether there are counts that are recent enough to be kept.
  abbrev pub is_kept : (Num Real → Bool) → Option (UpdateCounts Real) → Bool
  is_kept recent none = false
  is_kept recent (some previous) = recent previous.checked_at

  -- What a collection reports, once a simulation ran.
  abbrev pub Reported :
      Option (UpdateCounts Real)
      → Real
      → Simulation
      → Option (UpdateCounts Real) × Option String
      → Type 0
  Reported previous now simulation (counts, code) =
      ((text : String) × (simulation ≡ exited 0 text)
        × (counts
            ≡ some (
                counted now (
                  count_of is_update (splitlines text),
                  count_of is_security_update (splitlines text),
                )))
        × (count_of is_security_update (splitlines text) ≤ count_of is_update (splitlines text))
        × (code ≡ none))
      ⊎ ((Failed simulation code × (counts ≡ previous))
          ⊎ ((simulation ≡ no_program) × (counts ≡ none) × (code ≡ some "not-installed")))

  simulated-Reported :
      (previous : Option (UpdateCounts Real)) (now : Real) (simulation : Simulation)
      → Reported previous now simulation (simulated previous now simulation)
  unfolding parse_simulation
  simulated-Reported previous now no_program = inr (inr (refl, refl, refl))
  simulated-Reported previous now timed_out = inr (inl (inl (refl, refl), refl))
  simulated-Reported previous now refused = inr (inl (inr (inl refl, refl), refl))
  simulated-Reported previous now (exited zero text) =
      inl (
        text,
        refl,
        rw (count_lines_lem (splitlines text)) refl,
        security-le (splitlines text),
        refl,
      )
  simulated-Reported previous now (exited (suc n) text) =
      let is_nonzero : (suc n == 0) ≡ false = ground arith in
      rw (Reported, is_nonzero) (inr (inl (inr (inr (suc n, text, refl, omega arith), refl), refl)))

  -- Previous counts that are recent are kept without an error code. Otherwise a collection reports the numbers of the update
  -- lines and of the security update lines in the output, and then the simulation exited with 0, and
  -- the second is at most the first; or the previous counts with an error code, and then the
  -- simulation timed out (`timeout`), could not be run or exited with another code (`apt-failed`); or
  -- none with `not-installed`, and then there is no program.
  pub collect_updates-Reported :
      (recent : Num Real → Bool) (previous : Option (UpdateCounts Real)) (now : Real)
      (simulation : Simulation)
      → ((is_kept recent previous ≡ true)
          × (collect_updates recent previous now simulation ≡ (previous, none)))
        ⊎ ((is_kept recent previous ≡ false)
            × Reported previous now simulation (collect_updates recent previous now simulation))
  unfolding collect_updates
  collect_updates-Reported recent none now simulation =
      inr (refl, simulated-Reported none now simulation)
  collect_updates-Reported recent (some previous) now simulation =
      elim (Bool-cases (recent previous.checked_at)) [
        | inl e ↦ inl (e, rw e refl)
        | inr e ↦ inr (e, rw (Reported, e) (simulated-Reported (some previous) now simulation))
      ]
