-- ===== src/Render/Packing/Balance.antt =====
-- packing.py: the columns that `_distribute` builds differ in height by at most one block.
use terminal_status_panel.Base.{
  ℕ, zero, suc, ◌+◌, ◌≤◌, ◌≡◌, refl, sym, ◌∙◌, min, List, [], ◌∷◌, ◌++◌, arith, inl, inr, length,
  all, All, sum_of, get_or, range_from, replicate, leb, leb→le, leb→lt, Bool-cases,
}
use terminal_status_panel.Base.Sorting.{sort, sum_of-sort}
use terminal_status_panel.Render.Packing.{
  Column, placed_before, shortest, add_at, place_all, finish_column, finish, distribute,
}

-- The height of the shortest column.
abbrev lowest : List Column → ℕ
lowest [] = 0
lowest (c ∷ []) = c.filled
lowest (c ∷ d ∷ columns) = min c.filled (lowest (d ∷ columns))

-- The test of `shortest` decides whether the first column is no higher than the others.
leb-lowest :
    (x : ℕ) (d : Column) (columns : List Column)
    → all (λ (e : Column). leb x e.filled) (d ∷ columns) ≡ leb x (lowest (d ∷ columns))
leb-lowest x d [] = ground arith
leb-lowest x d (e ∷ columns) = ground (arith, leb-lowest x e columns)

lowest-add_at :
    (index height target : ℕ) (columns : List Column)
    → lowest columns ≤ lowest (add_at index height target columns)
unfolding add_at
lowest-add_at index height zero [] = omega arith
lowest-add_at index height (suc target) [] = omega arith
lowest-add_at index height zero (c ∷ []) = omega arith
lowest-add_at index height (suc target) (c ∷ []) = omega arith
lowest-add_at index height zero (c ∷ d ∷ columns) = omega arith
lowest-add_at index height (suc zero) (c ∷ d ∷ columns) =
    omega (arith, lowest-add_at index height zero (d ∷ columns))
lowest-add_at index height (suc (suc target)) (c ∷ d ∷ columns) =
    omega (arith, lowest-add_at index height (suc target) (d ∷ columns))

-- Only the shortest column grows.
add_at-le :
    (index height bound : ℕ) (columns : List Column)
    → All (λ (c : Column). c.filled ≤ bound) columns
    → lowest columns + height ≤ bound
    → All (λ (c : Column). c.filled ≤ bound) (add_at index height (shortest columns) columns)
unfolding add_at shortest
add_at-le index height bound [] h k = tt
add_at-le index height bound (c ∷ []) h k = (omega arith, tt)
add_at-le index height bound (c ∷ d ∷ columns) h k =
    elim (Bool-cases (all (λ (e : Column). leb c.filled e.filled) (d ∷ columns))) [
      | inl least ↦ rw least (
        omega (
          arith,
          leb→le c.filled (lowest (d ∷ columns)) (sym (leb-lowest c.filled d columns) ∙ least),
        ),
        h.1,
      )
      | inr other ↦ rw other (
        h.0,
        add_at-le index height bound (d ∷ columns) h.1 (
            omega (
              arith,
              leb→lt c.filled (lowest (d ∷ columns)) (sym (leb-lowest c.filled d columns) ∙ other),
            )),
      )
    ]

All-le_trans :
    (m n : ℕ) (columns : List Column)
    → m ≤ n
    → All (λ (c : Column). c.filled ≤ m) columns
    → All (λ (c : Column). c.filled ≤ n) columns
All-le_trans m n [] h a = tt
All-le_trans m n (c ∷ columns) h a = (omega arith, All-le_trans m n columns h a.1)

get_or-le :
    (bound : ℕ) (heights : List ℕ) (i : ℕ)
    → All (λ h. h ≤ bound) heights
    → get_or heights i 0 ≤ bound
get_or-le bound [] i a = omega arith
get_or-le bound (h ∷ heights) zero a = a.0
get_or-le bound (h ∷ heights) (suc i) a = get_or-le bound heights i a.1

-- The height of a column of block indices.
pub column_height : List ℕ → List ℕ → ℕ
column_height heights = sum_of (λ index. get_or heights index 0)

module _ (heights : List ℕ) where
  abbrev IsMeasured : Column → Type 0
  IsMeasured c = c.filled ≡ column_height heights c.members

  column_height-snoc :
      (is : List ℕ) (i : ℕ)
      → column_height heights (is ++ (i ∷ [])) ≡ column_height heights is + get_or heights i 0
  unfolding column_height
  column_height-snoc [] i = omega arith
  column_height-snoc (j ∷ is) i = omega (arith, column_height-snoc is i)

  add_at-IsMeasured :
      (index target : ℕ) (columns : List Column)
      → All IsMeasured columns
      → All IsMeasured (add_at index (get_or heights index 0) target columns)
  unfolding add_at
  add_at-IsMeasured index zero [] h = tt
  add_at-IsMeasured index (suc target) [] h = tt
  add_at-IsMeasured index zero (c ∷ columns) h =
      (omega (arith, h.0, column_height-snoc c.members index), h.1)
  add_at-IsMeasured index (suc target) (c ∷ columns) h =
      (h.0, add_at-IsMeasured index target columns h.1)

  module _ (bound : ℕ) (small : All (λ h. h ≤ bound) heights) where
    record IsBalanced (columns : List Column) : Type 0 where
      measured : All IsMeasured columns
      close : All (λ (c : Column). c.filled ≤ lowest columns + bound) columns

    place_all-IsBalanced :
        (order : List ℕ) (columns : List Column)
        → IsBalanced columns
        → IsBalanced (place_all heights order columns)
    unfolding place_all
    place_all-IsBalanced [] columns b = b
    place_all-IsBalanced (index ∷ order) columns b =
        let height = get_or heights index 0 in
        let placed = add_at index height (shortest columns) columns in
        let rises = lowest-add_at index height (shortest columns) columns in
        let fits = get_or-le bound heights index small in
        place_all-IsBalanced order placed (record {
          measured = add_at-IsMeasured index (shortest columns) columns b.measured;
          close =
              All-le_trans (lowest columns + bound) (lowest placed + bound) placed (omega arith)
                (add_at-le index height (lowest columns + bound) columns b.close (omega arith));
        })

All-lowest :
    (low : ℕ) (columns : List Column)
    → low ≤ lowest columns
    → All (λ (c : Column). low ≤ c.filled) columns
All-lowest low [] h = tt
All-lowest low (c ∷ []) h = (h, tt)
All-lowest low (c ∷ d ∷ columns) h = (omega arith, All-lowest low (d ∷ columns) (omega arith))

-- Heights between two bounds, of finished columns.
abbrev pub IsBetween : List ℕ → ℕ → ℕ → List ℕ → Type 0
IsBetween heights low high column =
    (low ≤ column_height heights column) × (column_height heights column ≤ high)

module _ (heights : List ℕ) (low high : ℕ) where
  finish_column-IsBetween :
      (is : List ℕ) (rest : List (List ℕ))
      → (low ≤ column_height heights is)
      → (column_height heights is ≤ high)
      → All (IsBetween heights low high) rest
      → All (IsBetween heights low high) (finish_column is rest)
  unfolding column_height
  finish_column-IsBetween [] rest l h a = a
  finish_column-IsBetween (i ∷ is) rest l h a =
      (rw (sum_of-sort (λ index. get_or heights index 0) leb (i ∷ is)) (l, h), a)

  finish-IsBetween :
      (columns : List Column)
      → All (IsMeasured heights) columns
      → All (λ (c : Column). low ≤ c.filled) columns
      → All (λ (c : Column). c.filled ≤ high) columns
      → All (IsBetween heights low high) (finish columns)
  unfolding finish
  finish-IsBetween [] m l h = tt
  finish-IsBetween (c ∷ columns) m l h =
      finish_column-IsBetween c.members (finish columns) (omega (arith, m.0, l.0))
        (omega (arith, m.0, h.0)) (finish-IsBetween columns m.1 l.1 h.1)

replicate-IsMeasured :
    (heights : List ℕ) (count : ℕ)
    → All (IsMeasured heights) (replicate count (record { members = []; filled = 0 }))
unfolding column_height
replicate-IsMeasured heights zero = tt
replicate-IsMeasured heights (suc count) = (refl, replicate-IsMeasured heights count)

replicate-close :
    (bound count : ℕ)
    → All (λ (c : Column). c.filled ≤ bound) (replicate count (record { members = []; filled = 0 }))
replicate-close bound zero = tt
replicate-close bound (suc count) = (omega arith, replicate-close bound count)

-- Where no block is higher than `bound`, the heights of the columns built, for any number of
-- columns, lie within `bound` of one another.
pub distribute_balanced :
    (heights : List ℕ) (bound count : ℕ)
    → All (λ h. h ≤ bound) heights
    → (low : ℕ) × All (IsBetween heights low (low + bound)) (distribute heights count)
unfolding distribute
distribute_balanced heights bound count small =
    let start = replicate count (record { members = []; filled = 0 }) in
    let order = sort (placed_before heights) (range_from 0 (length heights)) in
    let placed = place_all heights order start in
    let b = place_all-IsBalanced heights bound small order start (record {
      measured = replicate-IsMeasured heights count;
      close = replicate-close (lowest start + bound) count;
    }) in
    (
      lowest placed,
      finish-IsBetween heights (lowest placed) (lowest placed + bound) placed b.measured
          (All-lowest (lowest placed) placed (omega arith)) b.close,
    )
