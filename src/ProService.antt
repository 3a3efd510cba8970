-- ===== src/ProService.antt =====
-- wsl-pro-service: the service in each distro.
pub mod Networking
pub mod Serve
pub mod System
pub mod Landscape
pub mod Streams
pub mod Examples
pub mod SystemExamples
