-- ===== src/Tests.antt =====
-- A sample state of the runtime, and the theorems applied to it.
mod Sample
mod Events
mod Timers
mod Graphs
mod Values
mod Flow
mod Starters
mod Modules
mod Sensing
mod Starting
