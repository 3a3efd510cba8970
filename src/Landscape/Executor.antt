-- ===== src/Landscape/Executor.antt =====
-- The commands of windows-agent/internal/proservices/landscape/executor.go.
pub mod Host
pub mod Reserved
pub mod Install
pub mod Commands
pub mod Frame
pub mod Reports
pub mod InstallReports
pub mod CommandReports
pub mod Protocol
pub mod CleanUp
