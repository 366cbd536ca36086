-- ===== src/Macros.antt =====
-- The procedural macro `#[app]` (macros/src/): its checks, the signals that it assigns, its code
-- generator.
pub mod Ident
pub mod Collect
pub mod Syntax
pub mod Analyze
pub mod Check
pub mod Codegen
pub mod Entry
pub mod Examples
