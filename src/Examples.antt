-- ===== src/Examples.antt =====
-- The theorems at concrete inputs, where their hypotheses hold.
mod Machines
mod CpuRuns
mod Numbers
mod Devices
mod Systems
mod StackRun
mod Monitors
