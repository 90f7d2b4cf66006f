-- ===== src/Tests.antt =====
-- The theorems at concrete inputs, over `f64` as whole hundredths.
mod Fixtures
mod Pools
mod Serving
mod Checks
mod Dialing
mod Running
mod Reading
mod Rechecks
mod Judging
mod Printing
mod Searching
