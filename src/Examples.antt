-- ===== src/Examples.antt =====
-- The theorems at concrete inputs, and tests of the definitions on what the source's tests use.
mod Resolving
mod Launching
mod Starting
mod Supervising
mod Serving
mod Watching
mod Loading
mod Running
mod Measuring
mod Sharing
mod Stopping
