-- ===== src/Http.antt =====
-- proto/http.c: the HTTP/1.1 request parser.
pub mod Names
pub mod Headers
pub mod Path
pub mod Table
pub mod Render
pub mod Token
pub mod Named
pub mod Request
pub mod BlankLine
pub mod Pieces
pub mod Smuggling
pub mod Fields
pub mod Decode
mod Tests
