-- ===== src/Tests.antt =====
-- Concrete runs of the definitions, and each theorem at a concrete input.
mod Fixtures
mod Planning
mod Applying
mod Declaring
mod Trusting
mod Host
mod Running
mod Tools
mod Exposing
mod Loading
mod Saving
mod Walking
