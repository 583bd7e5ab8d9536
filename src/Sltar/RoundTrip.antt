-- ===== src/Sltar/RoundTrip.antt =====
-- What `tar x` and `tar t` make of an archive that `c_file` wrote.
pub mod Data
pub mod Archive
pub mod Extracted
pub mod Whole
