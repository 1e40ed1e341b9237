-- ===== src/Command.antt =====
-- The command line of the compiler, apps/sarifc/src/command.rs: its data, the loop over the
-- arguments and the tests after it.
pub mod Distance
pub mod Script
pub mod Table
pub mod Suggest
pub mod Parse
pub mod Keeps
pub mod Laws
mod Tests
