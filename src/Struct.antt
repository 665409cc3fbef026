-- ===== src/Struct.antt =====
-- The constants, enumerations and records of source/tensor_struct.h.
pub mod Sizes
pub mod Layout
pub mod Enums
pub mod Item
pub mod Node
