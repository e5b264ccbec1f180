-- ===== src/Render/Packing/Fit.antt =====
-- packing.py: the packed layout fits the width, is the widest that does, and of two candidates
-- the shorter is drawn.
use terminal_status_panel.Base.{
  ℕ, zero, suc, ◌≤◌, ◌<◌, ◌≡◌, refl, ap, ◌⊎◌, inl, inr, true, false, some, List, [], ◌∷◌, map,
  arith, length, range_from, leb, leb→le, leb→lt, ltb, ltb→lt, ltb→le, Bool-cases,
}
use terminal_status_panel.Render.Packing.{
  distribute, used_width, search_count, block_width, pack_blocks, grid, rich_console,
}

search_count-fits :
    (heights widths : List ℕ) (width gap count : ℕ)
    → (search_count heights widths width gap count ≡ range_from 0 (length heights) ∷ [])
      ⊎ (used_width widths gap (search_count heights widths width gap count) ≤ width)
unfolding search_count
search_count-fits heights widths width gap zero = inl refl
search_count-fits heights widths width gap (suc zero) = inl refl
search_count-fits heights widths width gap (suc (suc count)) =
    elim (Bool-cases (leb (used_width widths gap (distribute heights (suc (suc count)))) width)) [
      | inl fits ↦ inr (rw fits (leb→le _ _ fits))
      | inr wide ↦ rw wide (search_count-fits heights widths width gap (suc count))
    ]

search_count_widest :
    (heights widths : List ℕ) (width gap count other : ℕ)
    → 1 < other
    → other ≤ count
    → used_width widths gap (distribute heights other) ≤ width
    → (best : ℕ) × (other ≤ best)
      × (best ≤ count)
      × (search_count heights widths width gap count ≡ distribute heights best)
unfolding search_count
search_count_widest heights widths width gap zero other h k u = absurd (omega arith)
search_count_widest heights widths width gap (suc zero) other h k u = absurd (omega arith)
search_count_widest heights widths width gap (suc (suc count)) other h k u =
    elim (Bool-cases (leb (used_width widths gap (distribute heights (suc (suc count)))) width)) [
      | inl fits ↦ rw fits (suc (suc count), k, omega arith, refl)
      | inr wide ↦
          let (best, a, b, e) =
            search_count_widest heights widths width gap (suc count) other h
              (smaller (Bool-cases (leb other (suc count))) wide) u in
          rw wide (best, a, omega arith, e)
    ]
  where
    smaller :
        (leb other (suc count) ≡ true) ⊎ (leb other (suc count) ≡ false)
        → leb (used_width widths gap (distribute heights (suc (suc count)))) width ≡ false
        → other ≤ suc count
    smaller (inl le) wide = leb→le _ _ le
    smaller (inr gt) wide =
        let same : other ≡ suc (suc count) = omega (arith, leb→lt _ _ gt) in
        let used = ap (λ n. used_width widths gap (distribute heights n)) same in
        absurd (omega (arith, leb→lt _ _ wide))

module _ {Line : Type 0} (cell_len : Line → ℕ) where
  -- A packed layout is the single column of all blocks, or it fits the width, gaps included.
  pub pack_blocks-fits :
      (blocks : List (List Line)) (width gap : ℕ)
      → (pack_blocks cell_len blocks width gap ≡ range_from 0 (length (map length blocks)) ∷ [])
        ⊎ (blocks ≡ [])
        ⊎ (used_width
              (map (block_width cell_len) blocks)
              gap
              (pack_blocks cell_len blocks width gap)
            ≤ width)
  unfolding pack_blocks
  pack_blocks-fits [] width gap = inr (inl refl)
  pack_blocks-fits (block ∷ blocks) width gap =
      elim (search_count-fits (map length (block ∷ blocks))
        (map (block_width cell_len) (block ∷ blocks)) width gap (length (block ∷ blocks))) [
          | inl single ↦ inl single
          | inr fits ↦ inr (inr fits)
        ]

  -- If some number of columns above one, and not above the number of blocks, gives a layout that
  -- fits the width, then the layout chosen is the one for a number of columns at least as large.
  pub pack_blocks_widest :
      (block : List Line) (blocks : List (List Line)) (width gap other : ℕ)
      → 1 < other
      → other ≤ length (block ∷ blocks)
      → used_width
          (map (block_width cell_len) (block ∷ blocks))
          gap
          (distribute (map length (block ∷ blocks)) other)
        ≤ width
      → (best : ℕ) × (other ≤ best)
        × (best ≤ length (block ∷ blocks))
        × (pack_blocks cell_len (block ∷ blocks) width gap
            ≡ distribute (map length (block ∷ blocks)) best)
  unfolding pack_blocks
  pack_blocks_widest block blocks width gap other h k u =
      search_count_widest (map length (block ∷ blocks))
        (map (block_width cell_len) (block ∷ blocks)) width gap (length (block ∷ blocks)) other h k
        u

  -- What is drawn is one of the two grids, the alternative only where it is strictly shorter, so
  -- it is no taller than either; and something is drawn whenever there are blocks.
  pub rich_console-le :
      (rendered_height : List (List Line) → ℕ) (blocks others : List (List Line)) (width gap : ℕ)
      (primary challenger : List (List Line))
      → grid cell_len blocks width gap ≡ some primary
      → grid cell_len others width gap ≡ some challenger
      → (drawn : List (List Line)) × (rich_console cell_len rendered_height blocks
            (some others)
            width
            gap
          ≡ some drawn)
        × (rendered_height drawn ≤ rendered_height primary)
        × (rendered_height drawn ≤ rendered_height challenger)
        × ((drawn ≡ primary) ⊎ (rendered_height drawn < rendered_height primary))
  unfolding rich_console
  rich_console-le rendered_height blocks others width gap primary challenger p c =
      elim (Bool-cases (ltb (rendered_height challenger) (rendered_height primary))) [
        | inl shorter ↦ (
          challenger,
          ground arith,
          omega (arith, ltb→lt _ _ shorter),
          omega arith,
          inr (ltb→lt _ _ shorter),
        )
        | inr taller ↦ (primary, ground arith, omega arith, ltb→le _ _ taller, inl refl)
      ]
