-- ===== src/Sltar.antt =====
-- bitcoin-core/sltar.c
pub mod Device
pub mod Text
pub mod Header
pub mod Kind
pub mod Checksum
pub mod Create
pub mod Extract
pub mod RoundTrip
pub mod Main
mod Tests
