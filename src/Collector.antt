-- ===== src/Collector.antt =====
-- src/terminal_status_panel/collector: what `status-collect` reads for the host state.
pub mod Apt
pub mod Run
pub mod Vrrp
pub mod Journal
