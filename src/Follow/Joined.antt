-- ===== src/Follow/Joined.antt =====
-- follow.py: the row that `_row` joins, its length and its end.
use terminal_status_panel.Base.{
  ℕ, ◌+◌, ◌≤◌, ◌<◌, ◌≡◌, refl, sym, ap, ◌∙◌, ◌≢◌, true, Option, none, some, List, [], ◌∷◌, ◌++◌,
  append_assoc, arith, Text, length, length-append, lt→ltb,
}
use terminal_status_panel.Follow.{present, separator, join, row, stop_hint, hidden_part, truthy}

-- A line that ends in the given text.
abbrev pub EndsIn : Text → Text → Type 0
EndsIn end line = (start : Text) × (line ≡ start ++ end)

-- Each part after the first costs its length and the separator.
length-join :
    (x : Text) (xs : List Text) → xs ≢ [] → length (join (x ∷ xs)) ≡ length x + 3 + length (join xs)
unfolding join separator
length-join x [] h = absurd (h refl)
length-join x (y ∷ ys) h =
    omega
      (arith, length-append x (separator ++ join (y ∷ ys)), length-append separator (join (y ∷ ys)))

append-ne-nil : (xs : List Text) (x : Text) (ys : List Text) → xs ++ (x ∷ ys) ≢ []
append-ne-nil [] x ys e = cc
append-ne-nil (y ∷ xs) x ys e = cc

length-join_insert :
    (xs : List Text) (e h : Text)
    → length (join (xs ++ (e ∷ h ∷ []))) ≡ length (join (xs ++ (h ∷ []))) + 3 + length e
length-join_insert [] e h = omega (arith, length-join e (h ∷ []) (append-ne-nil [] h []), single h)
  where
    single : (h : Text) → length (join (h ∷ [])) ≡ length h
    single h = unfold join in refl
length-join_insert (x ∷ xs) e h = omega (
  arith,
  length-join x (xs ++ (e ∷ h ∷ [])) (append-ne-nil xs e (h ∷ [])),
  length-join x (xs ++ (h ∷ [])) (append-ne-nil xs h []),
  length-join_insert xs e h,
)

join-EndsIn : (xs : List Text) (h : Text) → EndsIn h (join (xs ++ (h ∷ [])))
unfolding join
join-EndsIn [] h = ([], refl)
join-EndsIn (x ∷ []) h = (x ++ separator, sym (append_assoc x separator h))
join-EndsIn (x ∷ y ∷ ys) h =
    let (start, e) = join-EndsIn (y ∷ ys) h in
    (
      x ++ (separator ++ start),
      ap (λ t. x ++ (separator ++ t)) e
          ∙ (ap (λ t. x ++ t) (sym (append_assoc separator start h))
              ∙ sym (append_assoc x (separator ++ start) h)),
    )

present-append : (ps qs : List (Option Text)) → present (ps ++ qs) ≡ present ps ++ present qs
unfolding present
present-append [] qs = refl
present-append (none ∷ ps) qs = present-append ps qs
present-append (some [] ∷ ps) qs = present-append ps qs
present-append (some (c ∷ s) ∷ ps) qs = ap (λ xs. (c ∷ s) ∷ xs) (present-append ps qs)

-- A row whose last part is the stop hint ends in it.
pub row-EndsIn : (ps : List (Option Text)) → EndsIn stop_hint (row (ps ++ (some stop_hint ∷ [])))
unfolding row present stop_hint
row-EndsIn ps = rw (present-append ps (some stop_hint ∷ [])) (join-EndsIn (present ps) stop_hint)

-- A text put before the stop hint costs its length and at most one separator.
pub length-row_insert :
    (ps : List (Option Text)) (e : Text)
    → length (row (ps ++ (some e ∷ some stop_hint ∷ [])))
      ≤ length (row (ps ++ (some stop_hint ∷ []))) + 3 + length e
unfolding row present stop_hint
length-row_insert ps [] =
    rw (present-append ps (some [] ∷ some stop_hint ∷ []), present-append ps (some stop_hint ∷ []))
      (omega arith)
length-row_insert ps (c ∷ s) =
    rw
      (
        present-append ps (some (c ∷ s) ∷ some stop_hint ∷ []),
        present-append ps (some stop_hint ∷ []),
      )
      (omega (arith, length-join_insert (present ps) (c ∷ s) stop_hint))

-- Of a text that is not empty the cost is exact.
pub length-row_insert_eq :
    (ps : List (Option Text)) (e : Text)
    → truthy (some e) ≡ true
    → length (row (ps ++ (some e ∷ some stop_hint ∷ [])))
      ≡ length (row (ps ++ (some stop_hint ∷ []))) + 3 + length e
unfolding row present stop_hint
length-row_insert_eq ps [] h = cc
length-row_insert_eq ps (c ∷ s) h =
    rw
      (
        present-append ps (some (c ∷ s) ∷ some stop_hint ∷ []),
        present-append ps (some stop_hint ∷ []),
      )
      (length-join_insert (present ps) (c ∷ s) stop_hint)

-- The hidden-line count makes the row longer, separator included.
pub length-row_hidden :
    (hidden : ℕ) (interval : Text)
    → 0 < hidden
    → length (row (some interval ∷ some stop_hint ∷ [])) + 3
      < length (row (hidden_part hidden ∷ some interval ∷ some stop_hint ∷ []))
unfolding row hidden_part stop_hint present
length-row_hidden hidden [] h =
    rw (lt→ltb 0 hidden h)
      (omega (arith, length-join _ (stop_hint ∷ []) (append-ne-nil [] stop_hint [])))
length-row_hidden hidden (c ∷ s) h =
    rw (lt→ltb 0 hidden h)
      (omega (arith, length-join _ ((c ∷ s) ∷ stop_hint ∷ []) (append-ne-nil [] (c ∷ s) _)))
