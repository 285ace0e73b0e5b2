-- ===== src/Qrm.antt =====
-- examples/qrm_workflow: the four processes of the workflow. The daemon submits a task, the scheduler
-- hands it on, the compiler rewrites its circuits, the submitter runs it on a device and answers.
pub mod Lines
pub mod GateDefs
pub mod Config
pub mod Run
pub mod Scheduler
pub mod Compiler
pub mod Device
pub mod Submitter
pub mod Pipeline
pub mod Daemon
pub mod Logger
pub mod Processes
pub mod Offload
pub mod System
pub mod Fixtures
mod Tests
