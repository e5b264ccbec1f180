-- ===== src/Render/Packing/Partition.antt =====
-- packing.py: every block stands in exactly one column, and each column is in declaration order.
use mathlib.Core.List.Perm
use mathlib.Core.List.{Perm, perm_middle, append_assoc, append-nil}
use terminal_status_panel.Base.{
  ℕ, zero, suc, ◌≤◌, ◌≡◌, refl, ap, List, [], ◌∷◌, ◌++◌, map, arith, inl, inr, length, all, All,
  get_or, range_from, replicate, flatten, leb, Bool-cases,
}
use terminal_status_panel.Base.Sorting.{sort, sort-perm, IsSorted, sort-IsSorted}
use terminal_status_panel.Render.Packing.{
  Column, placed_before, shortest, add_at, place_all, finish_column, finish, distribute, used_width,
  search_count, pack_blocks, block_width,
}

abbrev pub contents : List Column → List ℕ
contents [] = []
contents (c ∷ columns) = c.members ++ contents columns

contents-add_at :
    (index height : ℕ) (c : Column) (columns : List Column)
    → Perm
        (contents (add_at index height (shortest (c ∷ columns)) (c ∷ columns)))
        (index ∷ contents (c ∷ columns))
unfolding add_at shortest
contents-add_at index height c [] = rw append_assoc (perm_middle c.members [])
contents-add_at index height c (d ∷ columns) =
    elim (Bool-cases (all (λ (e : Column). leb c.filled e.filled) (d ∷ columns))) [
      | inl least ↦ rw (least, append_assoc) (perm_middle c.members (contents (d ∷ columns)))
      | inr other ↦ rw other (
          Perm.trans (Perm.append_left c.members (contents-add_at index height d columns))
            (perm_middle c.members (contents (d ∷ columns))))
    ]

-- The columns are never emptied: a target is found for the next block.
abbrev IsFilled : List Column → Type 0
IsFilled [] = ⊥
IsFilled (c ∷ columns) = Unit

add_at-IsFilled :
    (index height target : ℕ) (columns : List Column)
    → IsFilled columns
    → IsFilled (add_at index height target columns)
unfolding add_at
add_at-IsFilled index height zero (c ∷ columns) h = tt
add_at-IsFilled index height (suc target) (c ∷ columns) h = tt
add_at-IsFilled index height zero [] h = h
add_at-IsFilled index height (suc target) [] h = h

contents-place_all :
    (heights order : List ℕ) (columns : List Column)
    → IsFilled columns
    → Perm (contents (place_all heights order columns)) (order ++ contents columns)
unfolding place_all
contents-place_all heights order [] h = absurd h
contents-place_all heights [] (c ∷ columns) h = Perm.refl (contents (c ∷ columns))
contents-place_all heights (index ∷ order) (c ∷ columns) h =
    let height = get_or heights index 0 in
    let target = shortest (c ∷ columns) in
    Perm.trans
      (contents-place_all heights order (add_at index height target (c ∷ columns))
        (add_at-IsFilled index height target (c ∷ columns) tt))
      (Perm.trans (Perm.append_left order (contents-add_at index height c columns))
        (perm_middle order (contents (c ∷ columns))))

flatten-finish_column :
    (is : List ℕ) (rest : List (List ℕ)) (others : List ℕ)
    → Perm (flatten rest) others
    → Perm (flatten (finish_column is rest)) (is ++ others)
flatten-finish_column [] rest others h = h
flatten-finish_column (i ∷ is) rest others h = Perm.append (sort-perm leb (i ∷ is)) h

flatten-finish : (columns : List Column) → Perm (flatten (finish columns)) (contents columns)
unfolding finish
flatten-finish [] = Perm.refl []
flatten-finish (c ∷ columns) =
    flatten-finish_column c.members (finish columns) (contents columns) (flatten-finish columns)

contents-replicate :
    (count : ℕ) → contents (replicate count (record { members = []; filled = 0 })) ≡ []
contents-replicate zero = refl
contents-replicate (suc count) = contents-replicate count

distribute-perm :
    (heights : List ℕ) (count : ℕ)
    → Perm (flatten (distribute heights (suc count))) (range_from 0 (length heights))
unfolding distribute
distribute-perm heights count =
    let order = sort (placed_before heights) (range_from 0 (length heights)) in
    let start = replicate (suc count) (record { members = []; filled = 0 }) in
    Perm.trans (flatten-finish (place_all heights order start)) (
      Perm.trans (contents-place_all heights order start tt) (
        rw (contents-replicate count, append-nil)
          (sort-perm (placed_before heights) (range_from 0 (length heights)))))

search_count-perm :
    (heights widths : List ℕ) (width gap count : ℕ)
    → Perm (flatten (search_count heights widths width gap count)) (range_from 0 (length heights))
unfolding search_count
search_count-perm heights widths width gap zero =
    rw append-nil (Perm.refl (range_from 0 (length heights)))
search_count-perm heights widths width gap (suc zero) =
    rw append-nil (Perm.refl (range_from 0 (length heights)))
search_count-perm heights widths width gap (suc (suc count)) =
    elim (Bool-cases (leb (used_width widths gap (distribute heights (suc (suc count)))) width)) [
      | inl fits ↦ rw fits (distribute-perm heights (suc count))
      | inr wide ↦ rw wide (search_count-perm heights widths width gap (suc count))
    ]

-- A column's indices are in declaration order.
abbrev pub InOrder : List ℕ → Type 0
InOrder = IsSorted (λ i. i)

finish-InOrder : (columns : List Column) → All InOrder (finish columns)
unfolding finish
finish-InOrder [] = tt
finish-InOrder (c ∷ columns) = column c.members (finish columns) (finish-InOrder columns)
  where
    column :
        (is : List ℕ) (rest : List (List ℕ))
        → All InOrder rest
        → All InOrder (finish_column is rest)
    column [] rest h = h
    column (i ∷ is) rest h = (sort-IsSorted (λ k. k) (i ∷ is), h)

range_from-le : (start n low : ℕ) → low ≤ start → All (λ i. low ≤ i) (range_from start n)
range_from-le start zero low h = tt
range_from-le start (suc n) low h = (h, range_from-le (suc start) n low (omega arith))

range_from-InOrder : (start n : ℕ) → InOrder (range_from start n)
range_from-InOrder start zero = tt
range_from-InOrder start (suc n) =
    (range_from-le (suc start) n start (omega arith), range_from-InOrder (suc start) n)

search_count-InOrder :
    (heights widths : List ℕ) (width gap count : ℕ)
    → All InOrder (search_count heights widths width gap count)
unfolding search_count distribute
search_count-InOrder heights widths width gap zero = (range_from-InOrder 0 (length heights), tt)
search_count-InOrder heights widths width gap (suc zero) =
    (range_from-InOrder 0 (length heights), tt)
search_count-InOrder heights widths width gap (suc (suc count)) =
    elim (Bool-cases (leb (used_width widths gap (distribute heights (suc (suc count)))) width)) [
      | inl fits ↦ rw fits (finish-InOrder _)
      | inr wide ↦ rw wide (search_count-InOrder heights widths width gap (suc count))
    ]

length-map : {A B : Type 0} (f : A → B) (xs : List A) → length (map f xs) ≡ length xs
length-map f [] = refl
length-map f (x ∷ xs) = ap suc (length-map f xs)

module _ {Line : Type 0} (cell_len : Line → ℕ) where
  -- Every block stands in exactly one column of the packed layout, at every width and gap, and
  -- each column lists its blocks in declaration order.
  pub pack_blocks-perm :
      (blocks : List (List Line)) (width gap : ℕ)
      → Perm (flatten (pack_blocks cell_len blocks width gap)) (range_from 0 (length blocks))
        × All InOrder (pack_blocks cell_len blocks width gap)
  unfolding pack_blocks
  pack_blocks-perm [] width gap = (Perm.refl [], tt)
  pack_blocks-perm (block ∷ blocks) width gap =
      let all_blocks = block ∷ blocks in
      let heights = map length all_blocks in
      let widths = map (block_width cell_len) all_blocks in
      (
        rw (ap (range_from 0) (length-map length all_blocks)) at
            (search_count-perm heights widths width gap (length all_blocks)),
        search_count-InOrder heights widths width gap (length all_blocks),
      )
