-- ===== src/Examples.antt =====
-- One repository, an issue of it and a run, and what the theorems say of them.
pub mod Samples
pub mod Stores
pub mod Dispatches
pub mod Reaps
pub mod Phases
pub mod Requests
pub mod Conversations
pub mod Lessons
pub mod Checkouts
pub mod Startups
