-- ===== src/Text.antt =====
-- The text side of the library: character classes, quoted strings and their escapes.
pub mod Chars
pub mod Unescape
pub mod Write
pub mod Lex
pub mod Quoted
pub mod Variables
pub mod Comments
pub mod Escapes
pub mod JsonString
pub mod SquotedString
pub mod Bounds
pub mod Extent
pub mod InPlace
mod Tests
mod Examples
