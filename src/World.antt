-- ===== src/World.antt =====
-- thorin/world.h, world.cpp, def.cpp and tuple.cpp: the hash-consed definitions and the smart
-- constructors of tuples.
pub mod Sea
