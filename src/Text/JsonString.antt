-- ===== src/Text/JsonString.antt =====
-- A string through `ucl_elt_string_write_json` and back.
pub mod Inverse
pub mod Lexing
pub mod RoundTrip
pub mod Unterminated
