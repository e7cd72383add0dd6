-- ===== src/Tests.antt =====
-- Runs of the model at concrete inputs, and each theorem applied at one of them.
mod LockTests
mod PortTests
mod SchedulerTests
mod IpcTests
mod RecordTests
mod FileTests
mod EnglishTests
mod VmTests
mod BytecodeTests
