-- ===== src/Tests.antt =====
-- Runs on concrete inputs, and the witnesses of the properties.
pub mod WordTests
pub mod NumTests
pub mod QueueTests
pub mod SetTests
pub mod LispTests
pub mod GcTests
pub mod AsmTests
pub mod FifoTests
pub mod HeapTests
pub mod AvlTests
pub mod RunTests
