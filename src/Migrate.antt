-- ===== src/Migrate.antt =====
-- pkg/dbmigrate/dbmigrate.go and pkg/migrate/migrate.go: the migrations of a database, read from
-- numbered files and applied one by one.
pub mod Files
pub mod Runner
pub mod Versions
pub mod Progress
pub mod Modified
pub mod Tests
