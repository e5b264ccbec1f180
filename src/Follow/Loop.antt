-- ===== src/Follow/Loop.antt =====
-- follow.py: the loop of `run_follow`.
use terminal_status_panel.Base.{
  ℕ, zero, suc, ◌+◌, ◌*◌, ◌≤◌, ◌≡◌, refl, max, Bool, true, false, Option, none, some, List, [], ◌∷◌,
  String, arith, Text, length, length-snoc, any, if◌then◌else◌, ◌++◌, ◌⊎◌, inl, inr,
}
use terminal_status_panel.Follow.{
  FollowConfig, Segment, Pass, Event, pass, interrupt, interrupt_wait, Frame, crop, draw,
  follow_loop, chosen_interval, run_follow, rendered_lines, next_delay, status_line, error_of,
}
use terminal_status_panel.Follow.Rows.{crop_lem, next_delay_lem}

abbrev pub is_stop : Event → Bool
is_stop (pass p) = false
is_stop interrupt = true
is_stop (interrupt_wait p) = true

-- The passes that ran to the end of their wait before the loop was stopped.
abbrev pub passes_done : List Event → ℕ
passes_done [] = 0
passes_done (pass p ∷ events) = passes_done events + 1
passes_done (interrupt ∷ events) = 0
passes_done (interrupt_wait p ∷ events) = 0

-- The passes whose frame is drawn before the loop is stopped.
abbrev pub passes_drawn : List Event → List Pass
passes_drawn [] = []
passes_drawn (pass p ∷ events) = p ∷ passes_drawn events
passes_drawn (interrupt ∷ events) = []
passes_drawn (interrupt_wait p ∷ events) = p ∷ []

-- The number in the status row: that of the lines left out, but 0 on a console of no rows.
abbrev pub left_out : {A : Type 0} → ℕ → List A → ℕ
left_out zero rest = 0
left_out (suc height) rest = length rest

-- What `crop` keeps and leaves out, on a console of no rows as well.
crop-splits :
    {A : Type 0} (lines : List A) (height : ℕ)
    → (rest : List A) × (lines ≡ (crop lines height).0 ++ rest)
      × ((crop lines height).1 ≡ left_out height rest)
      × (length (crop lines height).0 + 1 ≤ max 1 height)
      × ((rest ≡ []) ⊎ (length (crop lines height).0 + 1 ≡ max 1 height))
unfolding crop
crop-splits lines zero = (lines, refl, refl, omega arith, inr refl)
crop-splits lines (suc height) =
    let (rest, whole, hidden, fits, full) = crop_lem lines (suc height) (omega arith) in
    (rest, whole, hidden, omega arith, elim full [ inl e ↦ inl e | inr e ↦ inr (omega arith) ])

chosen_interval-le :
    (interval : Option ℕ) (sections : List String) (cfg : FollowConfig)
    → 1000 ≤ chosen_interval interval sections cfg
unfolding chosen_interval
chosen_interval-le none sections cfg = omega arith
chosen_interval-le (some interval) sections cfg = omega arith

module _ (show_g : ℕ → Text) where
  -- The rows of a pass's frame: the first of the lines that it rendered, and the status row, which
  -- counts the lines left out (0 on a console of no rows); no more rows than the console has, or the status row alone where it has
  -- none, and lines are left out only where all the rows are used.
  abbrev pub Shows : ℕ → Pass → List (List Segment) → Type 0
  Shows chosen p rows =
      (kept : List (List Segment)) × (rest : List (List Segment)) × (rendered_lines p.rendered
        ≡ kept ++ rest)
      × (rows
          ≡ kept
            ++ (record {
              text =
                  status_line show_g (left_out p.height rest)
                    (p.elapsed + next_delay chosen p.elapsed) p.width (error_of p.rendered);
              style = none;
            }
                ∷ [])
              ∷ [])
      × (length rows ≤ max 1 p.height)
      × ((rest ≡ []) ⊎ (length rows ≡ max 1 p.height))

  -- One frame for each of the passes, in their order.
  abbrev pub AllShow : ℕ → List Pass → List Frame → Type 0
  AllShow chosen [] [] = Unit
  AllShow chosen (p ∷ passes) (f ∷ frames) = Shows chosen p f.rows × AllShow chosen passes frames
  AllShow chosen _ _ = ⊥

  draw-Shows : (chosen : ℕ) (p : Pass) → Shows chosen p (draw show_g chosen p).rows
  unfolding draw
  draw-Shows chosen p =
      let (rest, whole, hidden, fits, full) = crop-splits (rendered_lines p.rendered) p.height in
      (
        (crop (rendered_lines p.rendered) p.height).0,
        rest,
        whole,
        rw hidden refl,
        rw length-snoc fits,
        elim full [ inl e ↦ inl e | inr e ↦ inr (rw length-snoc e) ],
      )

  -- Follow mode draws one frame for each pass up to the Ctrl-C, in their order. The rows of a frame
  -- are a prefix of the lines that its pass rendered (of none where the pass failed) and below them
  -- the status row for the error, the cadence and the number of lines left out. They are no more than
  -- the rows of the console; on a console of no rows the status row alone is drawn, with the number 0.
  -- Lines are left out only where all the rows are used.
  pub follow_loop-fits :
      (chosen : ℕ) (events : List Event)
      → AllShow chosen (passes_drawn events) (follow_loop show_g chosen events).frames
  unfolding follow_loop
  follow_loop-fits chosen [] = tt
  follow_loop-fits chosen (pass p ∷ events) = (draw-Shows chosen p, follow_loop-fits chosen events)
  follow_loop-fits chosen (interrupt ∷ events) = tt
  follow_loop-fits chosen (interrupt_wait p ∷ events) = (draw-Shows chosen p, tt)

  follow_loop_pace :
      (chosen : ℕ) (events : List Event)
      → ((follow_loop show_g chosen events).worked ≤ (follow_loop show_g chosen events).waited)
        × (passes_done events * chosen
            ≤ (follow_loop show_g chosen events).worked + (follow_loop show_g chosen events).waited)
  unfolding follow_loop
  follow_loop_pace chosen [] = (omega arith, omega arith)
  follow_loop_pace chosen (pass p ∷ events) =
      let d = next_delay_lem chosen p.elapsed in
      let rest = follow_loop_pace chosen events in (omega arith, omega arith)
  follow_loop_pace chosen (interrupt ∷ events) = (omega arith, omega arith)
  follow_loop_pace chosen (interrupt_wait p ∷ events) = (omega arith, omega arith)

  -- On a terminal, over the passes that ran to the end of their wait: the panel works for at most
  -- half of the time, and each pass takes up at least one second, whatever interval was asked for.
  pub run_follow_pace :
      (cfg : FollowConfig) (sections : List String) (interval : Option ℕ)
      (once : List (List Segment)) (events : List Event)
      → ((run_follow show_g cfg sections interval true once events).worked
          ≤ (run_follow show_g cfg sections interval true once events).waited)
        × (passes_done events * 1000
            ≤ (run_follow show_g cfg sections interval true once events).worked
              + (run_follow show_g cfg sections interval true once events).waited)
  unfolding run_follow
  run_follow_pace cfg sections interval once events =
      let pace = follow_loop_pace (chosen_interval interval sections cfg) events in
      let slow = chosen_interval-le interval sections cfg in (pace.0, grind arith)

  follow_loop-status :
      (chosen : ℕ) (events : List Event)
      → (follow_loop show_g chosen events).status ≡ (if any is_stop events then some 0 else none)
  unfolding follow_loop
  follow_loop-status chosen [] = refl
  follow_loop-status chosen (pass p ∷ events) = follow_loop-status chosen events
  follow_loop-status chosen (interrupt ∷ events) = refl
  follow_loop-status chosen (interrupt_wait p ∷ events) = refl

  -- Follow mode ends only by an interrupt, and then with status 0: a failed pass ends nothing and
  -- gives no other status. Off a terminal it ends at once with status 0.
  pub run_follow-status :
      (cfg : FollowConfig) (sections : List String) (interval : Option ℕ) (tty : Bool)
      (once : List (List Segment)) (events : List Event)
      → (run_follow show_g cfg sections interval tty once events).status
        ≡ (if tty then (if any is_stop events then some 0 else none) else some 0)
  unfolding run_follow
  run_follow-status cfg sections interval false once events = refl
  run_follow-status cfg sections interval true once events =
      follow_loop-status (chosen_interval interval sections cfg) events
