-- ===== src/Tests.antt =====
-- Runs of the definitions on small inputs, and each theorem at an input that meets its hypotheses.
mod Space
mod Coord
mod BlocknrSet
mod Lock
mod Discard
mod Dscale
mod Bitmap
