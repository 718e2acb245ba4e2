-- ===== src/Wire/RoundTrip.antt =====
-- What `Writer` writes, `Reader` reads back, in front of any further bytes.
pub mod Rules
pub mod Scalars
pub mod Objects
