-- ===== src/Bencode.antt =====
-- Bencoding: src/bencode/de.rs and src/bencode/ser.rs, against the values that they carry.
pub mod Value
pub mod Reader
pub mod De
pub mod Ser
pub mod After
pub mod Work
pub mod Visits
pub mod RoundTrip
pub mod Quiet
pub mod InfoHash
mod Tests
