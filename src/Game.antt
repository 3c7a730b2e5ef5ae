-- ===== src/Game.antt =====
-- The match engine: server/internal/game. Definitions stand in the modules named for the steps of
-- a match, their theorems in the children of those modules.
pub mod State
pub mod Rounds
pub mod Turns
pub mod Offers
pub mod Endings
pub mod Ballots
pub mod Specialty
pub mod Advance
pub mod Clock
pub mod Votes
pub mod Actions
pub mod Connections
pub mod Session
pub mod Projection
pub mod Streams
pub mod VisibleText
pub mod Conservation
pub mod Census
mod Examples
mod SessionExamples
mod StepExamples
mod ViewExamples
