-- ===== src/Model.antt =====
-- src/terminal_status_panel/model: the values that the collectors build and the renderers read.
-- A point in time and an age are microseconds.
pub mod Docker
pub mod Health
use terminal_status_panel.Base.{ℕ}

abbrev pub second : ℕ
second = 1000000
