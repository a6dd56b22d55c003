-- ===== src/Util.antt =====
-- thorin/util: the containers and encodings that the rest of the compiler stands on.
pub mod Utf8
pub mod Width
pub mod Hash
pub mod BitSet
