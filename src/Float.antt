-- ===== src/Float.antt =====
-- float64. The language's floats are a type with the operations that the program uses; the laws that
-- a theorem needs are stated apart, and hold of IEEE 754 values, NaN and infinities included.
pub mod Defs
pub mod FixedPoint
