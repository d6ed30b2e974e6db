-- ===== src/State.antt =====
-- minichain/state.py.
pub mod Accounts
pub mod Journal
mod Overlay
pub mod Calls
pub mod Apply
pub mod Gas
pub mod Identity
pub mod Storage
pub mod Replay
pub mod Outcomes
pub mod Nested
pub mod Supply
mod Tests
pub mod Fees
