-- ===== src/Fe.antt =====
-- thorin/fe: the front end.
pub mod Scopes
pub mod Token
pub mod Chars
pub mod Input
pub mod Step
pub mod Literals
pub mod Lexer
