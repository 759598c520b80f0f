-- ===== src/Examples.antt =====
-- A small database with a running Loop, and each theorem at a concrete input.
pub mod Data
mod Passes
mod Tables
mod Plans
mod Stores
mod Starts
mod Requests
