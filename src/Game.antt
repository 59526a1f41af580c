-- ===== src/Game.antt =====
-- src/Game/Managers/GameManager.h and GameManager.cpp, by the part of the tick that the code is for.
pub mod State
pub mod Settings
pub mod Loading
pub mod Untouched
pub mod Cached
pub mod Freshness
pub mod Shown
pub mod Input
pub mod Zone
pub mod Snapshot
pub mod Loop
pub mod Sync
pub mod Moves
pub mod Commands
pub mod Rounds
pub mod Inputs
pub mod Snapshots
pub mod Batches
pub mod Flush
pub mod Departure
