-- ===== src/Command.antt =====
-- services/*/cli/init.go and services/*/cli/migrate.go: the commands beside serve.
pub mod Init
pub mod Migrate
pub mod Root
pub mod Version
