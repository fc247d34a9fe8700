-- ===== src/Tests.antt =====
-- Examples: the run time with the Unicode tables cut to ASCII, and the theorems at concrete inputs.
pub mod AsciiRuntime
mod Fixtures
mod Values
mod Policies
mod Workflows
mod Receiver
mod Failures
mod Lost
mod Retention
mod Bridge
mod Runner
mod Retiring
mod Listening
mod Origins
mod Marks
mod Lag
