-- ===== src/Render/Packing/Tests.antt =====
-- packing.py: runs of the model, and the theorems at concrete inputs.
use mathlib.Core.List.{Perm}
use terminal_status_panel.Base.{
  ℕ, ◌+◌, ◌≤◌, ◌≡◌, refl, ◌⊎◌, List, [], ◌∷◌, arith, All, map, flatten, range_from, replicate,
}
use terminal_status_panel.Render.Packing.{
  placed_before, shortest, add_at, place_all, finish, distribute, column_width, used_width,
  search_count, block_width, pack_blocks, cell_lines, grid, rich_console,
}
use terminal_status_panel.Render.Packing.Partition.{InOrder, pack_blocks-perm}
use terminal_status_panel.Render.Packing.Balance.{IsBetween, distribute_balanced}
use terminal_status_panel.Render.Packing.Fit.{pack_blocks-fits, pack_blocks_widest}

run : Unit {0}
unfolding distribute finish place_all shortest add_at placed_before used_width column_width
    search_count block_width pack_blocks grid cell_lines rich_console
run = tt

-- A line stands for its width.
abbrev cells : ℕ → ℕ
cells width = width

abbrev blocks : List (List ℕ)
blocks = replicate 3 10 ∷ replicate 17 12 ∷ replicate 5 8 ∷ replicate 4 9 ∷ []

distribute_runs : distribute (3 ∷ 17 ∷ 5 ∷ 4 ∷ []) 2 ≡ (1 ∷ []) ∷ (0 ∷ 2 ∷ 3 ∷ []) ∷ []
unfolding run
distribute_runs = refl

pack_blocks_runs : pack_blocks cells blocks 30 4 ≡ (1 ∷ []) ∷ (0 ∷ 2 ∷ 3 ∷ []) ∷ []
unfolding run
pack_blocks_runs = refl

pack_blocks-perm_example :
    Perm (flatten (pack_blocks cells blocks 30 4)) (range_from 0 4)
    × All InOrder (pack_blocks cells blocks 30 4)
pack_blocks-perm_example = pack_blocks-perm cells blocks 30 4

distribute_balanced_example :
    (low : ℕ) × All
      (IsBetween (3 ∷ 17 ∷ 5 ∷ 4 ∷ []) low (low + 17))
      (distribute (3 ∷ 17 ∷ 5 ∷ 4 ∷ []) 2)
distribute_balanced_example = distribute_balanced (3 ∷ 17 ∷ 5 ∷ 4 ∷ []) 17 2 (omega arith)

pack_blocks-fits_example :
    (pack_blocks cells blocks 30 4 ≡ range_from 0 4 ∷ [])
    ⊎ (blocks ≡ [])
    ⊎ (used_width (map (block_width cells) blocks) 4 (pack_blocks cells blocks 30 4) ≤ 30)
pack_blocks-fits_example = pack_blocks-fits cells blocks 30 4

pack_blocks_widest_example :
    (best : ℕ) × (2 ≤ best)
    × (best ≤ 4)
    × (pack_blocks cells blocks 30 4 ≡ distribute (3 ∷ 17 ∷ 5 ∷ 4 ∷ []) best)
unfolding run
pack_blocks_widest_example =
    pack_blocks_widest cells (replicate 3 10) (replicate 17 12 ∷ replicate 5 8 ∷ replicate 4 9 ∷ [])
      30 4 2 (omega arith) (omega arith) (omega arith)
