-- ===== src/Examples.antt =====
-- The theorems at concrete inputs, and runs of the definitions they are about.
pub mod Items
pub mod Headers
pub mod Values
pub mod Buffers
pub mod Sorting
pub mod Maps
pub mod Floats
pub mod Errors
pub mod Diag
