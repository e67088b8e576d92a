-- ===== src/Context.antt =====
-- context: the compilation of memories into a context of bounded size.
pub mod Budget
pub mod Bundles
pub mod Payload
pub mod Delta
pub mod Renderers
pub mod Snapshots
pub mod Compiler
pub mod Delivery
