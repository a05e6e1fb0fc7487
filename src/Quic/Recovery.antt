-- ===== src/Quic/Recovery.antt =====
-- src/quic/recovery.rs: loss detection and congestion control. A duration and an instant are a
-- number of nanoseconds, which is taken not to pass the 2 ^ 64 seconds of `Duration`; the rounding of
-- the clock's own sums (src/clock.rs), within a tick, is left out.
pub mod Rtt
pub mod RttBounds
pub mod Sent
pub mod Conserved
pub mod Judged
pub mod Congestion
pub mod Windows
pub mod Pto
pub mod Soonest
mod Runs
