-- ===== src/Wire.antt =====
-- The record types of schema.py (python/vekquorum/schema.py), as the closed validators return
-- them. A string that the code only compares and orders (an identifier, a hash, a key, a
-- signature, a name) is a number, its place in code-point order; the constant field `v` is left
-- out. Times are milliseconds.
mod Values
mod Policies
mod Actions
mod Events
mod Proofs
pub mod Digests
pub use Values.*
pub use Policies.*
pub use Actions.*
pub use Events.*
pub use Proofs.*
