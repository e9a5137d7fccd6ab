-- ===== src/Txn.antt =====
-- src/skycoin-api/txn.c: the reader of a transaction, which takes packets of any length, and the
-- signing of its inputs.
pub mod Buffer
pub mod Stream
pub mod Reader
pub mod Advance
pub mod Outputs
pub mod Scan
pub mod Ready
pub mod Step
pub mod Refine
pub mod Call
pub mod Elements
pub mod Sigs
pub mod Loop
pub mod Extends
pub mod Packets
pub mod Session
mod Tests
pub mod Returned
pub mod Limits
pub mod Lost
pub mod Serial
pub mod Inputs
pub mod Shown
pub mod Whole
pub mod Runs
pub mod Signing
pub mod Replied
mod Answers
