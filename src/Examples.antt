-- ===== src/Examples.antt =====
-- Tests by evaluation, and the theorems at concrete inputs.
mod Stored
mod Chains
mod Routes
mod Contexts
mod Servers
mod Cached
mod Limits
mod Bodies
mod Statics
mod Guards
mod Grouped
mod Signed
mod Compressed
mod Conditionals
mod Answers
mod Tracked
