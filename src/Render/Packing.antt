-- ===== src/Render/Packing.antt =====
-- src/terminal_status_panel/render/packing.py: blocks of lines arranged into columns of balanced
-- height. A line's width in terminal cells, which rich measures, is the parameter `cell_len`, and
-- the number of lines that rich renders a grid to is the parameter `rendered_height`.
pub mod Partition
pub mod Balance
pub mod Fit
mod Tests
use terminal_status_panel.Base.{
  ℕ, zero, suc, ◌+◌, ◌-◌, ◌*◌, max, Bool, Option, none, some, List, [], ◌∷◌, ◌++◌, ◌&&◌, ◌||◌, map,
  length, all, sum_of, get_or, range_from, replicate, ltb, leb, ◌==◌, if◌then◌else◌,
}
use terminal_status_panel.Base.Sorting.{sort}

-- `columns[k]` with `filled[k]`: the block indices in order of placement, and their height.
pub record Column : Type 0 where
  pub members : List ℕ
  pub filled : ℕ

-- `key=lambda index: (-heights[index], index)`
pub placed_before : List ℕ → ℕ → ℕ → Bool
placed_before heights i j =
    ltb (get_or heights j 0) (get_or heights i 0)
    || (get_or heights i 0 == get_or heights j 0 && leb i j)

-- `min(range(count), key=lambda column: (filled[column], column))`: the first column that no
-- later one undercuts.
pub shortest : List Column → ℕ
shortest [] = 0
shortest (c ∷ columns) =
    let later = suc (shortest columns) in
    if all (λ (d : Column). leb c.filled d.filled) columns then 0 else later

-- `columns[target].append(index)` and `filled[target] += heights[index]`
pub add_at : ℕ → ℕ → ℕ → List Column → List Column
add_at index height target [] = []
add_at index height zero (c ∷ columns) =
    record { members = c.members ++ (index ∷ []); filled = c.filled + height } ∷ columns
add_at index height (suc target) (c ∷ columns) = c ∷ add_at index height target columns

-- The `for index in order` loop.
pub place_all : List ℕ → List ℕ → List Column → List Column
place_all heights [] columns = columns
place_all heights (index ∷ order) columns =
    place_all heights order (add_at index (get_or heights index 0) (shortest columns) columns)

-- `[sorted(column) for column in columns if column]`
abbrev pub finish_column : List ℕ → List (List ℕ) → List (List ℕ)
finish_column [] rest = rest
finish_column (i ∷ is) rest = sort leb (i ∷ is) ∷ rest

pub finish : List Column → List (List ℕ)
finish [] = []
finish (c ∷ columns) = finish_column c.members (finish columns)

pub distribute : List ℕ → ℕ → List (List ℕ)
distribute heights count =
    let order = sort (placed_before heights) (range_from 0 (length heights)) in
    finish (place_all heights order (replicate count (record { members = []; filled = 0 })))

-- `max(widths[index] for index in column)`
pub column_width : List ℕ → List ℕ → ℕ
column_width widths [] = 0
column_width widths (index ∷ column) = max (get_or widths index 0) (column_width widths column)

pub used_width : List ℕ → ℕ → List (List ℕ) → ℕ
used_width widths gap columns = sum_of (column_width widths) columns + gap * (length columns - 1)

-- `for count in range(len(blocks), 1, -1)`, from `count` down.
pub search_count : List ℕ → List ℕ → ℕ → ℕ → ℕ → List (List ℕ)
search_count heights widths width gap zero = range_from 0 (length heights) ∷ []
search_count heights widths width gap (suc zero) = range_from 0 (length heights) ∷ []
search_count heights widths width gap (suc (suc count)) =
    let fewer = search_count heights widths width gap (suc count) in
    let columns = distribute heights (suc (suc count)) in
    if leb (used_width widths gap columns) width then columns else fewer

module _ {Line : Type 0} (cell_len : Line → ℕ) where
  pub block_width : List Line → ℕ
  block_width [] = 0
  block_width (line ∷ block) = max (cell_len line) (block_width block)

  pub pack_blocks : List (List Line) → ℕ → ℕ → List (List ℕ)
  pack_blocks [] width gap = []
  pack_blocks (block ∷ blocks) width gap =
      search_count (map length (block ∷ blocks)) (map block_width (block ∷ blocks)) width gap
        (length (block ∷ blocks))

  -- One cell of the grid: the lines of a column's blocks.
  pub cell_lines : List (List Line) → List ℕ → List Line
  cell_lines blocks [] = []
  cell_lines blocks (index ∷ column) = get_or blocks index [] ++ cell_lines blocks column

  -- `PackedColumns._grid`
  pub grid : List (List Line) → ℕ → ℕ → Option (List (List Line))
  grid [] width gap = none
  grid (block ∷ blocks) width gap =
      some (map (cell_lines (block ∷ blocks)) (pack_blocks (block ∷ blocks) width gap))

  -- `PackedColumns.__rich_console__`: what it yields, if anything.
  abbrev choose :
      (List (List Line) → ℕ) → List (List Line) → Option (List (List Line)) → List (List Line)
  choose rendered_height primary none = primary
  choose rendered_height primary (some challenger) =
      if ltb (rendered_height challenger) (rendered_height primary) then challenger else primary

  pub rich_console :
      (List (List Line) → ℕ)
      → List (List Line)
      → Option (List (List Line))
      → ℕ
      → ℕ
      → Option (List (List Line))
  rich_console rendered_height blocks alternative width gap = elim (grid blocks width gap) [
    | none ↦ none
    | some primary ↦ elim alternative [
      | none ↦ some primary
      | some others ↦ some (choose rendered_height primary (grid others width gap))
    ]
  ]
