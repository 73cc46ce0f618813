-- ===== src/RateLimit.antt =====
-- The trackers of crates/signedpulse-server/src/rate_limit.rs. Each mutex makes a method one step
-- on its state; the clock reading that a method takes is an argument. An `Instant` is a number of
-- nanoseconds on the monotonic clock and a `Duration` a number of nanoseconds; `duration_since`
-- stops at zero, as in Rust. The sums of instants and durations do not overflow (see the header of
-- Lib).
pub mod HelloRateLimiter
pub mod CooldownTracker
pub mod ActiveIps
pub mod Blacklist
pub mod LeaseTracker
