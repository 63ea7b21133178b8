-- ===== src/Tests.antt =====
-- Runs of the models at concrete states, and the theorems at states where their hypotheses hold.
mod PartitionTests
mod SchedTests
mod CapabilityTests
mod ClockTests
mod ContextTests
mod DetTests
mod ForeignTests
mod FramesTests
mod FsTxnTests
mod KernelHeapTests
mod ShellArgsTests
mod SlabTests
mod UserAccessTests
mod ZeroCopyTests
