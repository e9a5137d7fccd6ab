-- ===== src/System.antt =====
-- The app as a whole: the events that reach it, in any order.
pub mod Fits
pub mod Invariant
pub mod Screens
pub mod Drawing
pub mod Buffers
pub mod Reading
pub mod Outputs
pub mod Signing
pub mod Handlers
pub mod Transactions
pub mod Rounds
pub mod Events
pub mod Reached
mod Tests
