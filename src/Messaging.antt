-- ===== src/Messaging.antt =====
-- crates/peergos-fs/src/messaging: member ids, tree clocks and their laws.
pub mod MemberId
pub mod TreeClock
pub mod IdOrder
pub mod Join
pub mod ClockOrder
pub mod ClockSteps
pub mod ClockCbor
mod Runs
