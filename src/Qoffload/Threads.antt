-- ===== src/Qoffload/Threads.antt =====
-- examples/qoffload_service: the three workers of QOffload.cpp as threads. A turn is one access to what
-- they share (the counter of the forwarder, the task store, the stop tokens) or one call of a messenger,
-- with the local work around it, and a run is any sequence of turns of the workers. `std::mutex` and
-- `std::atomic` make each access one step; the messages received and the statuses of the sends are
-- arguments of a turn.
pub mod State
pub mod Workers
pub mod Commands
pub mod Turns
pub mod Alone
pub mod Interleave
pub mod Places
pub mod Invariant
pub mod Once
pub mod Own
pub mod Pending
pub mod Others
pub mod Delivery
pub mod Handover
pub mod Fetched
pub mod Phases
pub mod StoreCounts
pub mod Counted
pub mod ControlCounted
pub mod Advance
pub mod Race
pub mod Stopping
mod Tests
