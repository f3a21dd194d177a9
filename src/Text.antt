-- ===== src/Text.antt =====
-- Text of the wire profile: the strict parser of jsonparse.py (python/vekquorum/jsonparse.py) and
-- the printer of canon.py (python/vekquorum/canon.py), on lists of code points.
pub mod Chars
pub mod Numbers
pub mod Parser
pub mod Printer
pub mod StringRound
pub mod NumberRound
pub mod RoundTrip
pub mod Sound
pub mod Canonical
pub mod Fuel
mod Tests
