-- ===== src/Examples.antt =====
-- Tests of the source's own tables, and runs of the model at concrete inputs.
pub mod Chain
pub mod Machine
mod Amount
pub mod Airdrop
mod Journal
pub mod Paying
pub mod Plans
mod Settings
mod Waiting
mod Commands
mod Linked
mod Readings
pub mod Scan
