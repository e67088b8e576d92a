-- ===== src/Claims/Truth.antt =====
-- claims/truth.py: `TruthMaintenanceService`. The child modules model its parts.
pub mod Services
pub mod Relations
pub mod Ensure
pub mod Lifecycle
pub mod Activation
pub mod State
pub mod Effects
pub mod Histories
pub mod Closing
pub mod Keeps
