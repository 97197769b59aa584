-- ===== src/Agent.antt =====
-- internal/agent: the program that runs on an edge node.
pub mod TaskRunner
pub mod Executors
pub mod Updater
pub mod CertRenew
pub mod Downloader
pub mod ModelExecutor
