-- ===== src/Engine.antt =====
-- The scheduler engine: nr_scheduler/src/scheduler_engine.cpp and
-- nr_scheduler/include/engine/scheduler_engine.hpp.
pub mod Tracker
pub mod Routing
pub mod Types
pub mod Allocator
pub mod Policy
pub mod State
pub mod Eligible
pub mod Schedule
pub mod Tti
pub mod Slots
pub mod Changes
pub mod Events
pub mod Idle
mod Blanks
mod Samples
mod Trials
mod Cases
mod Examples
