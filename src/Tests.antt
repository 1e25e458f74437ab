-- ===== src/Tests.antt =====
-- Small inputs on which the theorems apply.
mod Readers
mod PipelineTests
mod TuiTests
mod Hosts
mod RunnerTests
mod PumpTests
mod DeviceTests
mod CliTests
mod ViewTests
