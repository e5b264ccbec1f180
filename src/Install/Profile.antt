-- ===== src/Install/Profile.antt =====
-- install.py: installing twice, installing and taking away again, and a dry run.
use terminal_status_panel.Base.{
  ◌≡◌, refl, ap, sym, ◌∙◌, inl, inr, Bool, true, false, ◌&&◌, Option, none, some, List, [], ◌∷◌,
  ◌++◌, append-nil, append_assoc, arith, Text, drop, ◌==◌, Bool-cases,
}
use terminal_status_panel.Install.{
  Panel, Kind, file, block, Stored, existing_text, begin_mark, end_mark, block_body,
  render_managed_block, starts_with, strip_from, strip_block, rstrip_newlines, is_nil, with_block,
  updated, apply,
}
use terminal_status_panel.Install.Marks.{
  occurs, neither, starts_with_before, strip_from_kept, strip_from_block, strip_from_open,
  strip_from_plain, strip_from_nil, block_body-lacks, strip_from_dangling,
}

abbrev blank_line : Text
blank_line = b'\n' ∷ b'\n' ∷ []

rstrip_blank : (s : Text) → rstrip_newlines (s ++ blank_line) ≡ rstrip_newlines s
unfolding rstrip_newlines
rstrip_blank [] = refl
rstrip_blank (c ∷ s) = rw (rstrip_blank s)

rstrip-rstrip : (s : Text) → rstrip_newlines (rstrip_newlines s) ≡ rstrip_newlines s
unfolding rstrip_newlines
rstrip-rstrip [] = refl
rstrip-rstrip (c ∷ s) = elim (Bool-cases (c == b'\n' && is_nil (rstrip_newlines s))) [
  | inl e ↦ rw e
  | inr e ↦ rw e (rw (rstrip-rstrip s, e))
]

blank_line_clear : occurs begin_mark blank_line ≡ false
unfolding starts_with
blank_line_clear = refl

occurs_blank :
    (s : Text) → occurs begin_mark s ≡ false → occurs begin_mark (s ++ blank_line) ≡ false
occurs_blank [] h = blank_line_clear
occurs_blank (c ∷ s) h =
    let (first, later) = neither (starts_with begin_mark (c ∷ s)) (occurs begin_mark s) h in
    rw (starts_with_before b'\n' begin_mark (c ∷ s) (b'\n' ∷ []) refl ∙ first)
      (occurs_blank s later)

-- What taking the block away leaves of a text that was installed into.
abbrev left_over : Text → Text
left_over [] = []
left_over (c ∷ s) = (c ∷ s) ++ blank_line

strip-with_block :
    (panels : List Panel) (kept : Text)
    → occurs begin_mark kept ≡ false
    → strip_block (with_block kept (render_managed_block panels)) ≡ left_over kept
unfolding strip_block render_managed_block
strip-with_block panels [] h =
    strip_from_block (block_body panels) [] (block_body-lacks panels) ∙ strip_from_nil
strip-with_block panels (c ∷ kept) h =
    let body = block_body panels in
    let rest = drop 1 begin_mark ++ (body ++ (end_mark ++ (b'\n' ∷ []))) in
    ap (strip_from 0) (sym (append_assoc (c ∷ kept) blank_line (b'#' ∷ rest)))
    ∙ strip_from_kept ((c ∷ kept) ++ blank_line) rest (occurs_blank (c ∷ kept) h)
    ∙ ap (λ x. ((c ∷ kept) ++ blank_line) ++ x)
        (strip_from_block body [] (block_body-lacks panels) ∙ strip_from_nil)
    ∙ append-nil ((c ∷ kept) ++ blank_line)

rstrip-left_over : (kept : Text) → rstrip_newlines (left_over kept) ≡ rstrip_newlines kept
rstrip-left_over [] = refl
rstrip-left_over (c ∷ kept) = rstrip_blank (c ∷ kept)

-- The part of a text that an installation keeps.
abbrev pub kept_of : Text → Text
kept_of existing = rstrip_newlines (strip_block existing)

strip-updated :
    (panels : List Panel) (existing : Text)
    → occurs begin_mark (kept_of existing) ≡ false
    → strip_block (updated panels existing) ≡ left_over (kept_of existing)
unfolding updated
strip-updated panels existing h = strip-with_block panels (kept_of existing) h

-- The text without its last newlines, and these.
rstrip_rest : (s : Text) → (v : Text) × (s ≡ rstrip_newlines s ++ v)
unfolding rstrip_newlines
rstrip_rest [] = ([], refl)
rstrip_rest (c ∷ s) = elim (Bool-cases (c == b'\n' && is_nil (rstrip_newlines s))) [
  | inl e ↦ rw e (c ∷ s, refl)
  | inr e ↦ let (v, f) = rstrip_rest s in rw e (v, ap (λ xs. c ∷ xs) f)
]

starts_with-append_left : (p u v : Text) → starts_with p (u ++ v) ≡ false → starts_with p u ≡ false
unfolding starts_with
starts_with-append_left [] u v h = h
starts_with-append_left (a ∷ p) [] v h = refl
starts_with-append_left (a ∷ p) (b ∷ u) v h = ground (arith, starts_with-append_left p u v)

occurs-append_left : (mark u v : Text) → occurs mark (u ++ v) ≡ false → occurs mark u ≡ false
occurs-append_left mark [] v h = refl
occurs-append_left mark (c ∷ u) v h =
    let (first, later) = neither (starts_with mark ((c ∷ u) ++ v)) (occurs mark (u ++ v)) h in
    rw (starts_with-append_left mark (c ∷ u) v first) (occurs-append_left mark u v later)

occurs-append_right : (mark u v : Text) → occurs mark (u ++ v) ≡ false → occurs mark v ≡ false
occurs-append_right mark [] v h = h
occurs-append_right mark (c ∷ u) v h =
    occurs-append_right mark u v
      (neither (starts_with mark ((c ∷ u) ++ v)) (occurs mark (u ++ v)) h).1

strip_plain : (s : Text) → occurs begin_mark s ≡ false → strip_block s ≡ s
unfolding strip_block
strip_plain s h = strip_from_plain s h

kept_clear : (s : Text) → occurs begin_mark s ≡ false → occurs begin_mark (kept_of s) ≡ false
kept_clear s h =
    let (v, e) = rstrip_rest s in
    ap (λ x. occurs begin_mark (rstrip_newlines x)) (strip_plain s h)
    ∙ occurs-append_left begin_mark (rstrip_newlines s) v (ap (occurs begin_mark) (sym e) ∙ h)

kept_of-updated :
    (panels : List Panel) (existing : Text)
    → occurs begin_mark (kept_of existing) ≡ false
    → kept_of (updated panels existing) ≡ kept_of existing
kept_of-updated panels existing h =
    ap rstrip_newlines (strip-updated panels existing h)
    ∙ rstrip-left_over (kept_of existing)
    ∙ rstrip-rstrip (strip_block existing)

-- Where what an installation keeps holds no begin mark, a second installation, of any panels, gives
-- the file that it would have given without the first.
pub apply_again :
    (path : Text) (first second : List Panel) (f : Option Stored)
    → occurs begin_mark (kept_of (existing_text f)) ≡ false
    → (apply block path second false false (apply block path first false false f).1).1
      ≡ (apply block path second false false f).1
unfolding apply updated
apply_again path first second none h =
    ap (λ x. some (record { text = with_block x (render_managed_block second); mode = none }))
      (kept_of-updated first [] h)
apply_again path first second (some f) h =
    ap (λ x. some (record { text = with_block x (render_managed_block second); mode = f.mode }))
      (kept_of-updated first f.text h)

-- Installing into a text without a begin mark and taking the block away again gives the text back,
-- but for the newlines at its end, and leaves the mode alone.
pub apply_back :
    (path : Text) (panels : List Panel) (f : Stored)
    → occurs begin_mark f.text ≡ false
    → (g : Stored) × ((apply block path panels true false
          (apply block path panels false false (some f)).1).1
        ≡ some g)
      × (rstrip_newlines g.text ≡ rstrip_newlines f.text)
      × (g.mode ≡ f.mode)
unfolding apply
apply_back path panels f h = (
  record f { text = strip_block (updated panels f.text) },
  refl,
  ap rstrip_newlines (strip-updated panels f.text (kept_clear f.text h))
      ∙ rstrip-left_over (kept_of f.text)
      ∙ rstrip-rstrip (strip_block f.text)
      ∙ ap rstrip_newlines (strip_plain f.text h),
  refl,
)

-- A dry run says what the real run says, and leaves the file alone.
pub apply_dry_run :
    (kind : Kind) (path : Text) (panels : List Panel) (uninstall : Bool) (f : Option Stored)
    → apply kind path panels uninstall true f ≡ ((apply kind path panels uninstall false f).0, f)
unfolding apply
apply_dry_run file path panels true none = refl
apply_dry_run file path panels true (some f) = refl
apply_dry_run block path panels true none = refl
apply_dry_run block path panels true (some f) = refl
apply_dry_run file path panels false f = refl
apply_dry_run block path panels false f = refl

with_block-begin :
    (before behind text : Text)
    → with_block (before ++ (begin_mark ++ behind)) text
      ≡ before ++ (begin_mark ++ (behind ++ (b'\n' ∷ b'\n' ∷ text)))
with_block-begin [] behind text = refl
with_block-begin (c ∷ before) behind text =
    ap (λ xs. c ∷ xs) (append_assoc before (begin_mark ++ behind) (b'\n' ∷ b'\n' ∷ text))

strip_dangling :
    (panels : List Panel) (before behind : Text)
    → occurs begin_mark before ≡ false
    → occurs end_mark behind ≡ false
    → strip_block (with_block (before ++ (begin_mark ++ behind)) (render_managed_block panels))
      ≡ before
unfolding strip_block render_managed_block
strip_dangling panels before behind clear h =
    ap (strip_from 0) (with_block-begin before behind (render_managed_block panels))
    ∙ strip_from_kept before
        (drop 1 begin_mark ++ (behind ++ (b'\n' ∷ b'\n' ∷ render_managed_block panels))) clear
    ∙ ap (λ x. before ++ x)
        (strip_from_dangling behind (block_body panels) h (block_body-lacks panels))
    ∙ append-nil before

strip_open : (s : Text) → occurs end_mark s ≡ false → strip_block s ≡ s
unfolding strip_block
strip_open s h = strip_from_open s h

is_nil-append : (u w : Text) → is_nil w ≡ false → is_nil (u ++ w) ≡ false
is_nil-append [] w h = h
is_nil-append (c ∷ u) w h = refl

-- Newlines are taken from the end only.
rstrip-append :
    (u v : Text)
    → is_nil (rstrip_newlines v) ≡ false
    → rstrip_newlines (u ++ v) ≡ u ++ rstrip_newlines v
unfolding rstrip_newlines
rstrip-append [] v h = refl
rstrip-append (c ∷ u) v h =
    rw (rstrip-append u v h, is_nil-append u (rstrip_newlines v) h)
      (elim (Bool-cases (c == b'\n')) [ inl e ↦ rw e refl | inr e ↦ rw e refl ])

-- The begin mark does not end in a newline.
rstrip-begin :
    (behind : Text)
    → (rstrip_newlines (begin_mark ++ behind) ≡ begin_mark ++ rstrip_newlines behind)
      × (is_nil (rstrip_newlines (begin_mark ++ behind)) ≡ false)
unfolding rstrip_newlines
rstrip-begin behind = (refl, refl)

-- What an installation keeps of a text with a begin mark and no end mark.
rstrip_dangling :
    (before behind : Text)
    → rstrip_newlines (before ++ (begin_mark ++ behind))
      ≡ before ++ (begin_mark ++ rstrip_newlines behind)
rstrip_dangling before behind =
    let (whole, solid) = rstrip-begin behind in
    rstrip-append before (begin_mark ++ behind) solid ∙ ap (λ x. before ++ x) whole

-- A profile that holds a begin mark and no end mark loses, on the second installation, all that
-- stands behind that mark, the block of the first installation included: what stands before the mark
-- is kept, but for the newlines at its end, and the new block follows.
pub updated_dangling :
    (first second : List Panel) (before behind : Text)
    → occurs begin_mark before ≡ false
    → occurs end_mark (before ++ (begin_mark ++ behind)) ≡ false
    → updated second (updated first (before ++ (begin_mark ++ behind)))
      ≡ with_block (rstrip_newlines before) (render_managed_block second)
unfolding updated
updated_dangling first second before behind clear no_end =
    let text = before ++ (begin_mark ++ behind) in
    let open_end =
      occurs-append_right end_mark begin_mark behind
        (occurs-append_right end_mark before (begin_mark ++ behind) no_end) in
    let (v, e) = rstrip_rest behind in
    ap
      (λ x.
        with_block (rstrip_newlines (strip_block (with_block x (render_managed_block first))))
          (render_managed_block second))
      (ap rstrip_newlines (strip_open text no_end) ∙ rstrip_dangling before behind)
    ∙ ap (λ x. with_block (rstrip_newlines x) (render_managed_block second))
        (strip_dangling first before (rstrip_newlines behind) clear (
          occurs-append_left end_mark (rstrip_newlines behind) v
            (ap (occurs end_mark) (sym e) ∙ open_end)))
