-- ===== src/Tests.antt =====
-- The theorems at concrete inputs.
pub mod Fixtures
pub mod PacketTests
pub mod GraphTests
pub mod LoaderTests
pub mod RuntimeTests
pub mod LoopTests
pub mod PackageTests
pub mod ParallelTests
pub mod ModuleApiTests
pub mod ExecutionTests
