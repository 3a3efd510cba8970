-- ===== src/Landscape.antt =====
-- windows-agent/internal/proservices/landscape: the client of the Landscape server.
pub mod Download
pub mod HostConf
pub mod HostInfo
pub mod Client
pub mod Connection
pub mod Retry
pub mod DefaultUser
pub mod KeepConnected
pub mod Executor
pub mod Receiving
pub mod Controller
pub mod Examples
pub mod ServiceExamples
