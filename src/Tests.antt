-- ===== src/Tests.antt =====
-- The theorems at concrete inputs.
pub mod FecTests
pub mod SenderTests
pub mod ReceiverTests
mod TransferTests
mod SignalTests
mod ServerTests
mod LibsTests
