-- ===== src/Registry.antt =====
-- registry.py (python/vekquorum/registry.py): the methods of `LocalRegistry`. The time `now` and
-- the requests' keys are arguments; identifiers and hashes are well formed.
pub mod Tables
pub mod Admission
pub mod Policies
pub mod Proofs
pub mod Reads
pub mod Calls
pub mod Frame
pub mod Forward
pub mod Within
pub mod Sound
pub mod Quarantine
pub mod Conflicts
mod Tests
