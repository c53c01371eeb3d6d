-- ===== src/Enrollment.antt =====
-- internal/enrollment/manager.go and pending.go: when the agent tries to get a new identity, the
-- tokens that it may use for it, the enrollment itself, and the update of the credential.
pub mod Backoff
pub mod Tokens
pub mod Waits
pub mod Rotation
pub mod Pending
pub mod Recover
pub mod Sent
pub mod Attempts
pub mod Durable
pub mod Stuck
mod Tests
