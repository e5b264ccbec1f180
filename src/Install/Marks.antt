-- ===== src/Install/Marks.antt =====
-- install.py: where the pattern of `strip_block` matches, and what it leaves.
use terminal_status_panel.Base.{
  ℕ, zero, suc, ◌-◌, ◌≡◌, refl, ap, sym, ◌∙◌, inl, inr, Bool, true, false, not, ◌&&◌, ◌||◌, none,
  some, List, [], ◌∷◌, ◌++◌, map, append-nil, append_assoc, arith, Text, codes, length,
  length-append, drop, all, joined, ◌==◌, Bool-cases,
}
use terminal_status_panel.Install.{
  Panel, full, server, docker, health, traefik, trouble, command, begin_mark, end_mark, invocation,
  block_body, starts_with, after_end, match_length, strip_from,
}

-- The mark stands somewhere in the text.
abbrev pub occurs : Text → Text → Bool
occurs mark [] = false
occurs mark (c ∷ s) = starts_with mark (c ∷ s) || occurs mark s

-- The character is not in the text.
abbrev pub lacks : ℕ → Text → Bool
lacks x s = all (λ c. not (c == x)) s

lacks-append : (x : ℕ) (s t : Text) → lacks x s ≡ true → lacks x t ≡ true → lacks x (s ++ t) ≡ true
lacks-append x [] t h k = k
lacks-append x (c ∷ s) t h k = ground (arith, lacks-append x s t)

starts_with-append : (p s : Text) → starts_with p (p ++ s) ≡ true
unfolding starts_with
starts_with-append [] s = refl
starts_with-append (a ∷ p) s = ground (arith, starts_with-append p s)

drop-length : (p s : Text) → drop (length p) (p ++ s) ≡ s
drop-length [] s = refl
drop-length (a ∷ p) s = drop-length p s

-- A text that lacks `x` starts what stands before an `x`, or does not start it at all.
pub starts_with_before :
    (x : ℕ) (p u r : Text) → lacks x p ≡ true → starts_with p (u ++ (x ∷ r)) ≡ starts_with p u
unfolding starts_with
starts_with_before x [] u r h = refl
starts_with_before x (a ∷ p) [] r h = ground arith
starts_with_before x (a ∷ p) (b ∷ u) r h = ground (arith, starts_with_before x p u r)

-- A mark is `#` and a text without `#`.
starts_with_hash :
    (p : Text) (b : ℕ) (u r : Text)
    → lacks b'#' p ≡ true
    → starts_with (b'#' ∷ p) ((b ∷ u) ++ (b'#' ∷ r)) ≡ starts_with (b'#' ∷ p) (b ∷ u)
unfolding starts_with
starts_with_hash p b u r h = ap (λ x. b'#' == b && x) (starts_with_before b'#' p u r h)

suc-sub-one : (n : ℕ) → suc n - 1 ≡ n
suc-sub-one n = omega arith

lacks_head : (x c : ℕ) (s : Text) → lacks x (c ∷ s) ≡ true → ((c == x) ≡ false) × (lacks x s ≡ true)
lacks_head x c s h = ground arith

starts_with_other :
    (p : Text) (c : ℕ) (s : Text) → (c == b'#') ≡ false → starts_with (b'#' ∷ p) (c ∷ s) ≡ false
unfolding starts_with
starts_with_other p c s h = ground arith

length-append_sub : (u rest : Text) → length (u ++ rest) - length rest ≡ length u
length-append_sub u rest = omega (arith, length-append u rest)

suc-eq-zero : (n : ℕ) → (suc n == 0) ≡ false
suc-eq-zero n = ground arith

pub neither : (a b : Bool) → (a || b) ≡ false → (a ≡ false) × (b ≡ false)
neither a b h = ground arith

strip_from-append : (u rest : Text) → strip_from (length u) (u ++ rest) ≡ strip_from 0 rest
unfolding strip_from
strip_from-append [] rest = refl
strip_from-append (c ∷ u) rest = strip_from-append u rest

pub strip_from_nil : strip_from 0 [] ≡ []
unfolding strip_from
strip_from_nil = refl

strip_from_keep :
    (c : ℕ) (s : Text) → match_length (c ∷ s) ≡ 0 → strip_from 0 (c ∷ s) ≡ c ∷ strip_from 0 s
unfolding strip_from
strip_from_keep c s e = rw e

strip_from_match :
    (c : ℕ) (u rest : Text)
    → match_length ((c ∷ u) ++ rest) ≡ suc (length u)
    → strip_from 0 ((c ∷ u) ++ rest) ≡ strip_from 0 rest
unfolding strip_from
strip_from_match c u rest e =
    rw (e, suc-sub-one (length u), suc-eq-zero (length u)) (strip_from-append u rest)

match_length_none : (s : Text) → starts_with begin_mark s ≡ false → match_length s ≡ 0
unfolding match_length
match_length_none s e = rw e

-- What holds no begin mark is kept, whatever follows it from a `#` on.
pub strip_from_kept :
    (kept r : Text)
    → occurs begin_mark kept ≡ false
    → strip_from 0 (kept ++ (b'#' ∷ r)) ≡ kept ++ strip_from 0 (b'#' ∷ r)
strip_from_kept [] r h = refl
strip_from_kept (c ∷ kept) r h =
    let (first, later) = neither (starts_with begin_mark (c ∷ kept)) (occurs begin_mark kept) h in
    strip_from_keep c (kept ++ (b'#' ∷ r)) (
      match_length_none ((c ∷ kept) ++ (b'#' ∷ r))
        (starts_with_hash (drop 1 begin_mark) c kept r refl ∙ first))
    ∙ ap (λ xs. c ∷ xs) (strip_from_kept kept r later)

after_end_body :
    (body rest : Text)
    → lacks b'#' body ≡ true
    → after_end (body ++ (end_mark ++ (b'\n' ∷ rest))) ≡ some rest
unfolding after_end
after_end_body [] rest h = rw (starts_with-append end_mark (b'\n' ∷ rest))
after_end_body (c ∷ body) rest h =
    let (first, later) = lacks_head b'#' c body h in
    rw (starts_with_other (drop 1 end_mark) c (body ++ (end_mark ++ (b'\n' ∷ rest))) first)
      (after_end_body body rest later)

-- From a begin mark to behind the end mark is one match, and is taken out.
strip_from_span :
    (span rest : Text)
    → after_end (span ++ rest) ≡ some rest
    → strip_from 0 (begin_mark ++ (span ++ rest)) ≡ strip_from 0 rest
unfolding match_length
strip_from_span span rest e = strip_from_match b'#' (drop 1 begin_mark ++ span) rest (
    rw (starts_with-append begin_mark (span ++ rest), drop-length begin_mark (span ++ rest), e)
      (length-append_sub (begin_mark ++ span) rest))

-- A block is taken out, whatever follows it.
pub strip_from_block :
    (body rest : Text)
    → lacks b'#' body ≡ true
    → strip_from 0 (begin_mark ++ (body ++ (end_mark ++ (b'\n' ∷ rest)))) ≡ strip_from 0 rest
strip_from_block body rest h =
    ap (λ x. strip_from 0 (begin_mark ++ x))
      (sym (append_assoc body (end_mark ++ (b'\n' ∷ [])) rest))
    ∙ strip_from_span (body ++ (end_mark ++ (b'\n' ∷ []))) rest (
        ap after_end (append_assoc body (end_mark ++ (b'\n' ∷ [])) rest)
        ∙ after_end_body body rest h)

invocation-lacks : (p : Panel) → lacks b'#' (invocation (command p)) ≡ true
invocation-lacks full = refl
invocation-lacks server = refl
invocation-lacks docker = refl
invocation-lacks health = refl
invocation-lacks traefik = refl
invocation-lacks trouble = refl

abbrev invocations : List Panel → Text
invocations panels = joined (codes " ; ") (map (λ p. invocation (command p)) panels)

invocations-lacks : (panels : List Panel) → lacks b'#' (invocations panels) ≡ true
unfolding joined
invocations-lacks [] = refl
invocations-lacks (p ∷ []) = invocation-lacks p
invocations-lacks (p ∷ q ∷ panels) =
    lacks-append b'#' (invocation (command p)) (codes " ; " ++ invocations (q ∷ panels))
      (invocation-lacks p)
      (lacks-append b'#' (codes " ; ") (invocations (q ∷ panels)) refl
        (invocations-lacks (q ∷ panels)))

pub block_body-lacks : (panels : List Panel) → lacks b'#' (block_body panels) ≡ true
unfolding block_body
block_body-lacks panels =
    lacks-append b'#' (b'\n' ∷ codes "case $- in *i*) ")
      (invocations panels ++ (codes " ;; esac" ++ (b'\n' ∷ []))) refl
      (lacks-append b'#' (invocations panels) (codes " ;; esac" ++ (b'\n' ∷ []))
        (invocations-lacks panels) refl)

-- A text that ends in a newline, and holds no end mark before it, has none that goes on behind it.
pub after_end_newline :
    (mid r : Text) → occurs end_mark mid ≡ false → after_end (mid ++ (b'\n' ∷ r)) ≡ after_end r
unfolding after_end
after_end_newline [] r h = rw (starts_with_other (drop 1 end_mark) b'\n' r refl)
after_end_newline (c ∷ mid) r h =
    let (first, later) = neither (starts_with end_mark (c ∷ mid)) (occurs end_mark mid) h in
    rw (starts_with_before b'\n' end_mark (c ∷ mid) r refl ∙ first) (after_end_newline mid r later)

after_end-none : (s : Text) → occurs end_mark s ≡ false → after_end s ≡ none
unfolding after_end
after_end-none [] h = refl
after_end-none (c ∷ s) h =
    let (first, later) = neither (starts_with end_mark (c ∷ s)) (occurs end_mark s) h in
    rw first (after_end-none s later)

occurs-drop :
    (mark : Text) (n : ℕ) (s : Text) → occurs mark s ≡ false → occurs mark (drop n s) ≡ false
occurs-drop mark zero s h = h
occurs-drop mark (suc n) [] h = refl
occurs-drop mark (suc n) (c ∷ s) h =
    occurs-drop mark n s (neither (starts_with mark (c ∷ s)) (occurs mark s) h).1

match_length_open : (s : Text) → occurs end_mark s ≡ false → match_length s ≡ 0
unfolding match_length
match_length_open s h = elim (Bool-cases (starts_with begin_mark s)) [
  | inl e ↦ rw (
    e,
    after_end-none (drop (length begin_mark) s) (occurs-drop end_mark (length begin_mark) s h),
  )
  | inr e ↦ rw e
]

-- A text without an end mark is kept whole, begin marks and all.
pub strip_from_open : (s : Text) → occurs end_mark s ≡ false → strip_from 0 s ≡ s
strip_from_open [] h = strip_from_nil
strip_from_open (c ∷ s) h =
    strip_from_keep c s (match_length_open (c ∷ s) h)
    ∙ ap (λ xs. c ∷ xs)
        (strip_from_open s (neither (starts_with end_mark (c ∷ s)) (occurs end_mark s) h).1)

-- So is one without a begin mark.
pub strip_from_plain : (s : Text) → occurs begin_mark s ≡ false → strip_from 0 s ≡ s
strip_from_plain [] h = strip_from_nil
strip_from_plain (c ∷ s) h =
    let (first, later) = neither (starts_with begin_mark (c ∷ s)) (occurs begin_mark s) h in
    strip_from_keep c s (match_length_none (c ∷ s) first)
    ∙ ap (λ xs. c ∷ xs) (strip_from_plain s later)

-- A begin mark is no end mark.
after_end_begin : (s : Text) → after_end (begin_mark ++ s) ≡ after_end (drop 1 begin_mark ++ s)
unfolding after_end starts_with
after_end_begin s = refl

-- A begin mark that has no end mark up to a newline is the beginning of the block behind it.
pub strip_from_dangling :
    (mid body : Text)
    → occurs end_mark mid ≡ false
    → lacks b'#' body ≡ true
    → strip_from 0 (
        begin_mark
        ++ (mid ++ (b'\n' ∷ b'\n' ∷ (begin_mark ++ (body ++ (end_mark ++ (b'\n' ∷ [])))))))
      ≡ []
strip_from_dangling mid body h k =
    let tail = drop 1 begin_mark ++ body in
    let closed = end_mark ++ (b'\n' ∷ []) in
    let span = mid ++ (b'\n' ∷ b'\n' ∷ (begin_mark ++ (body ++ closed))) in
    ap (λ x. strip_from 0 (begin_mark ++ x)) (sym (append-nil span))
    ∙ strip_from_span span [] (
        ap after_end (append-nil span)
        ∙ after_end_newline mid (b'\n' ∷ (begin_mark ++ (body ++ closed))) h
        ∙ after_end_newline [] (begin_mark ++ (body ++ closed)) refl
        ∙ after_end_begin (body ++ closed)
        ∙ after_end_body tail [] (lacks-append b'#' (drop 1 begin_mark) body refl k))
    ∙ strip_from_nil
