-- ===== src/Core.antt =====
-- The core of src/core.cpp: the profile lifecycle and the records of a profile, over the plugins.
pub mod Entities
pub mod Schema
pub mod Host
pub mod State
pub mod Lifecycle
pub mod Records
pub mod Machine
pub mod Toy
mod Examples
mod Laws
