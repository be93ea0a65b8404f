-- ===== src/Dscale.antt =====
-- Numbers of a variable width on disk (dscale.c).
pub mod Codec
pub mod RoundTrip
