-- ===== src/Reconcile.antt =====
-- internal/reconcile/reconcile.go: a cadre's desired state, applied to the host.
pub mod NextState
mod Steady
pub mod Decide
pub mod Apply
pub mod Atomic
pub mod Outcome
pub mod Twice
pub mod Converge
pub mod Remove
pub mod Removed
pub mod Retry
pub mod Status
pub mod New
