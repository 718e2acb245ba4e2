-- ===== src/Wire.antt =====
-- src/core/wire: the datagrams and their binary form.
pub mod Result
pub mod Writer
pub mod Reader
pub mod RoundTrip
pub mod Packets
