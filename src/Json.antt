-- ===== src/Json.antt =====
-- belt.pp/json.hpp: the string values. A `std::string` is the list of its bytes, each below 256;
-- `char` compares with ASCII characters alike whether it is signed or not.
pub mod Utf
pub mod Decoder
pub mod Encoder
pub mod Lexer
pub mod Each
pub mod RoundTrip
pub mod Token
pub mod Unicode
pub mod Escapes
pub mod Pieces
pub mod Phases
pub mod Total
pub mod Lexers
pub mod Reads
pub mod Texts
