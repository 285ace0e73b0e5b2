-- ===== src/Qoffload.antt =====
-- The qoffload service: examples/qoffload_service, with the protocol messages that it uses.
pub mod Double
pub mod Proto
pub mod TaskStore
pub mod ResourceRegistry
pub mod Config
pub mod Environment
pub mod Defaults
pub mod Logger
pub mod Forward
pub mod Protocol
pub mod Decimal
pub mod Path
pub mod Rest
pub mod Typed
pub mod Control
pub mod Service
pub mod Threads
pub mod Main
pub mod Fixtures
mod Tests
