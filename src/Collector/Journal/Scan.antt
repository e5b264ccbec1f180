-- ===== src/Collector/Journal/Scan.antt =====
-- journal.py: `_scan` appends, so that two reads in turn are one read of both.
use terminal_status_panel.Base.{
  ℕ, ◌≡◌, refl, ap, sym, ◌∙◌, Option, none, some, List, [], ◌∷◌, ◌++◌, append_assoc, append-nil,
  String, Bool-cases, inl, inr,
}
use terminal_status_panel.Collector.Journal.{
  EventKind, same_kind, Entry, Line, object, other, matches, Stamps, no_stamps, add_stamp,
  add_entry, add_timed, or_last, scan,
}

-- What a read of these lines alone finds for a kind.
abbrev pub found : List EventKind → List Line → Stamps
found enabled lines = (scan enabled lines no_stamps none).0

add_stamp-append :
    (kind : EventKind) (at : ℕ) (stamps : Stamps) (k : EventKind)
    → add_stamp kind at stamps k ≡ stamps k ++ add_stamp kind at no_stamps k
add_stamp-append kind at stamps k = elim (Bool-cases (same_kind k kind)) [
  | inl e ↦ rw e
  | inr e ↦ rw (e, append-nil)
]

add_entry-append :
    (enabled : List EventKind) (e : Entry) (at : ℕ) (stamps : Stamps) (k : EventKind)
    → add_entry enabled e at stamps k ≡ stamps k ++ add_entry enabled e at no_stamps k
unfolding add_entry
add_entry-append [] e at stamps k = sym (append-nil (stamps k))
add_entry-append (kind ∷ enabled) e at stamps k = elim (Bool-cases (matches kind e)) [
  | inl m ↦ rw m (
      add_entry-append enabled e at (add_stamp kind at stamps) k
      ∙ ap (λ s. s ++ add_entry enabled e at no_stamps k) (add_stamp-append kind at stamps k)
      ∙ append_assoc (stamps k) (add_stamp kind at no_stamps k) (add_entry enabled e at no_stamps k)
      ∙ ap (λ s. stamps k ++ s)
          (sym (add_entry-append enabled e at (add_stamp kind at no_stamps) k)))
  | inr m ↦ rw m (add_entry-append enabled e at stamps k)
]

add_timed-append :
    (enabled : List EventKind) (e : Entry) (stamps : Stamps) (k : EventKind)
    → add_timed enabled e stamps k ≡ stamps k ++ add_timed enabled e no_stamps k
add_timed-append enabled e stamps k = timed e.realtime
  where
    timed :
        (at : Option ℕ)
        → (elim at as (λ _. Stamps) [ none ↦ stamps | some t ↦ add_entry enabled e t stamps ]) k
          ≡ stamps k
            ++ (elim at as (λ _. Stamps) [
              | none ↦ no_stamps
              | some t ↦ add_entry enabled e t no_stamps
            ])
                k
    timed none = sym (append-nil (stamps k))
    timed (some t) = add_entry-append enabled e t stamps k

-- A read adds what it finds behind the stamps that it starts with, whatever the cursor.
pub scan-append :
    (enabled : List EventKind) (lines : List Line) (stamps : Stamps) (cursor : Option String)
    (k : EventKind)
    → (scan enabled lines stamps cursor).0 k ≡ stamps k ++ found enabled lines k
unfolding scan
scan-append enabled [] stamps cursor k = sym (append-nil (stamps k))
scan-append enabled (other ∷ lines) stamps cursor k = scan-append enabled lines stamps cursor k
scan-append enabled (object e ∷ lines) stamps cursor k =
    scan-append enabled lines (add_timed enabled e stamps) (or_last e.cursor cursor) k
    ∙ ap (λ s. s ++ found enabled lines k) (add_timed-append enabled e stamps k)
    ∙ append_assoc (stamps k) (add_timed enabled e no_stamps k) (found enabled lines k)
    ∙ ap (λ s. stamps k ++ s)
        (sym (scan-append enabled lines (add_timed enabled e no_stamps) (or_last e.cursor none) k))

-- Two reads in turn give what one read of both gives: stamps and last cursor.
pub scan_twice :
    (enabled : List EventKind) (old new : List Line) (stamps : Stamps) (cursor : Option String)
    → scan enabled (old ++ new) stamps cursor
      ≡ scan enabled new (scan enabled old stamps cursor).0 (scan enabled old stamps cursor).1
unfolding scan
scan_twice enabled [] new stamps cursor = refl
scan_twice enabled (other ∷ old) new stamps cursor = scan_twice enabled old new stamps cursor
scan_twice enabled (object e ∷ old) new stamps cursor =
    scan_twice enabled old new (add_timed enabled e stamps) (or_last e.cursor cursor)

pub found-append :
    (enabled : List EventKind) (old new : List Line) (k : EventKind)
    → found enabled (old ++ new) k ≡ found enabled old k ++ found enabled new k
found-append enabled old new k =
    let (stamps, cursor) = scan enabled old no_stamps none in
    ap (λ (r : Stamps × Option String). r.0 k) (scan_twice enabled old new no_stamps none)
    ∙ scan-append enabled new stamps cursor k

-- The last cursor does not depend on the stamps.
pub scan-cursor :
    (enabled : List EventKind) (lines : List Line) (s t : Stamps) (cursor : Option String)
    → (scan enabled lines s cursor).1 ≡ (scan enabled lines t cursor).1
unfolding scan
scan-cursor enabled [] s t cursor = refl
scan-cursor enabled (other ∷ lines) s t cursor = scan-cursor enabled lines s t cursor
scan-cursor enabled (object e ∷ lines) s t cursor =
    scan-cursor enabled lines (add_timed enabled e s) (add_timed enabled e t)
      (or_last e.cursor cursor)
