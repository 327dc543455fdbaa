-- ===== src/Tests.antt =====
-- Runs of the modelled code on small inputs, and each result of the header at an input that meets
-- its hypotheses.
mod Queue
mod Locks
mod Limits
mod Gates
mod Engines
mod Fixes
mod Governor
mod Cycles
mod Schedules
mod Pipelines
mod Breakers
mod Guards
mod Roles
mod Teams
