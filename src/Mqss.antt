-- ===== src/Mqss.antt =====
-- The mqss library: include/mqss and src/transport.
pub mod StatusCode
pub mod Status
pub mod Message
pub mod Transport
pub mod InMemory
pub mod Codec
pub mod Messenger
pub mod TypedDelivery
pub mod Consumer
pub mod Features
pub mod Config
pub mod Rabbit
mod Tests
