-- ===== src/Render.antt =====
-- src/terminal_status_panel/render: the packing of blocks into columns and the verdict cells.
pub mod Packing
pub mod Verdict
