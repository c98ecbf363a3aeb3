-- ===== src/Service.antt =====
-- services/*/cli/serve.go and services/*/config/config.go: how each command builds its service,
-- runs it and closes what it opened.
pub mod Flags
pub mod Brokers
pub mod Process
pub mod Clients
pub mod Worker
pub mod Dispatcher
pub mod Scheduler
pub mod Gateway
pub mod Reads
pub mod Closes
