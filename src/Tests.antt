-- ===== src/Tests.antt =====
-- Tests on concrete inputs, and instances of the theorems.
mod Text
mod Sets
mod Folding
mod Normalizing
mod Scoping
mod Lexing
mod Bits
mod Conversions
mod Graph
mod Analysis
mod Numbering
mod Currying
