-- ===== src/Tests.antt =====
-- Tests of the components and the theorems at concrete inputs.
pub mod Fixtures
pub mod Worker
pub mod Scheduler
pub mod Retry
pub mod Dispatcher
pub mod Gateway
pub mod Consumer
pub mod Handlers
pub mod Grpc
pub mod Service
pub mod Pipeline
pub mod RateLimiter
pub mod Lineage
pub mod Command
pub mod Root
pub mod Carrier
pub mod Middleware
pub mod Defaults
