-- ===== src/Adapters.antt =====
-- adapters.py (python/vekquorum/adapters.py): the refund simulator, the fixture gate and the
-- inboxes. A call that holds the simulator's lock is one step.
pub mod Refund
pub mod Simulator
pub mod Inbox
pub mod Ledger
pub mod Repeats
pub mod Intents
pub mod Effects
pub mod Guards
pub mod Safety
pub mod Deliveries
mod Tests
