-- ===== src/Macros/Codegen.antt =====
-- The code generator (macros/src/codegen/): what each part emits, as data.
pub mod Code
pub mod Groups
pub mod Boot
pub mod Shared
pub mod Spawn
pub mod Schedule
pub mod Dispatch
pub mod Tasks
pub mod Resources
pub mod Locals
pub mod Statics
pub mod Module
pub mod Assertions
pub mod Functions
pub mod Startup
