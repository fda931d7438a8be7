-- ===== src/FirstCalculator.antt =====
-- src/lib/vix_calculator.ts, the first calculator, over an abstract type of numbers. Its rollovers are in
-- WeeklyRollover.
pub mod Numbers
pub mod FinalBook
pub mod MidBook
pub mod Strikes
pub mod Contribution
pub mod Replay
mod Tests
