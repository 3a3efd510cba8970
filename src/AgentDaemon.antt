-- ===== src/AgentDaemon.antt =====
-- windows-agent/internal/daemon: daemon.go and networking.go.
pub mod Buffer
pub mod Adapters
pub mod Serving
pub mod Examples
