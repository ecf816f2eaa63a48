-- ===== src/Http/Reply.antt =====
-- belt.pp/http.hpp: the answer of `protocol` to an OPTIONS request.
use belt_pp.Base.{[], ◌∷◌}
use belt_pp.Http.Request.{Text}

-- The lines that an OPTIONS request is answered with, in bytes.
abbrev pub reply : Text
reply =
    b'H' ∷ b'T' ∷ b'T' ∷ b'P' ∷ b'/' ∷ b'1' ∷ b'.' ∷ b'1' ∷ 32 ∷ b'2' ∷ b'0' ∷ b'0' ∷ 32 ∷ b'O'
    ∷ b'K' ∷ 13 ∷ 10 ∷ b'A' ∷ b'c' ∷ b'c' ∷ b'e' ∷ b's' ∷ b's' ∷ b'-' ∷ b'C' ∷ b'o' ∷ b'n' ∷ b't'
    ∷ b'r' ∷ b'o' ∷ b'l' ∷ b'-' ∷ b'A' ∷ b'l' ∷ b'l' ∷ b'o' ∷ b'w' ∷ b'-' ∷ b'O' ∷ b'r' ∷ b'i'
    ∷ b'g' ∷ b'i' ∷ b'n' ∷ b':' ∷ 32 ∷ b'*' ∷ 13 ∷ 10 ∷ b'A' ∷ b'c' ∷ b'c' ∷ b'e' ∷ b's' ∷ b's'
    ∷ b'-' ∷ b'C' ∷ b'o' ∷ b'n' ∷ b't' ∷ b'r' ∷ b'o' ∷ b'l' ∷ b'-' ∷ b'A' ∷ b'l' ∷ b'l' ∷ b'o'
    ∷ b'w' ∷ b'-' ∷ b'M' ∷ b'e' ∷ b't' ∷ b'h' ∷ b'o' ∷ b'd' ∷ b's' ∷ b':' ∷ 32 ∷ b'P' ∷ b'O' ∷ b'S'
    ∷ b'T' ∷ b',' ∷ 32 ∷ b'G' ∷ b'E' ∷ b'T' ∷ b',' ∷ 32 ∷ b'P' ∷ b'U' ∷ b'T' ∷ b',' ∷ 32 ∷ b'D'
    ∷ b'E' ∷ b'L' ∷ b'E' ∷ b'T' ∷ b'E' ∷ b',' ∷ 32 ∷ b'O' ∷ b'P' ∷ b'T' ∷ b'I' ∷ b'O' ∷ b'N' ∷ b'S'
    ∷ 13 ∷ 10 ∷ b'A' ∷ b'c' ∷ b'c' ∷ b'e' ∷ b's' ∷ b's' ∷ b'-' ∷ b'C' ∷ b'o' ∷ b'n' ∷ b't' ∷ b'r'
    ∷ b'o' ∷ b'l' ∷ b'-' ∷ b'A' ∷ b'l' ∷ b'l' ∷ b'o' ∷ b'w' ∷ b'-' ∷ b'H' ∷ b'e' ∷ b'a' ∷ b'd'
    ∷ b'e' ∷ b'r' ∷ b's' ∷ b':' ∷ 32 ∷ b'X' ∷ b'-' ∷ b'C' ∷ b'U' ∷ b'S' ∷ b'T' ∷ b'O' ∷ b'M' ∷ b'-'
    ∷ b'H' ∷ b'E' ∷ b'A' ∷ b'D' ∷ b'E' ∷ b'R' ∷ b',' ∷ 32 ∷ b'C' ∷ b'o' ∷ b'n' ∷ b't' ∷ b'e' ∷ b'n'
    ∷ b't' ∷ b'-' ∷ b'T' ∷ b'y' ∷ b'p' ∷ b'e' ∷ 13 ∷ 10 ∷ b'A' ∷ b'c' ∷ b'c' ∷ b'e' ∷ b's' ∷ b's'
    ∷ b'-' ∷ b'C' ∷ b'o' ∷ b'n' ∷ b't' ∷ b'r' ∷ b'o' ∷ b'l' ∷ b'-' ∷ b'M' ∷ b'a' ∷ b'x' ∷ b'-'
    ∷ b'A' ∷ b'g' ∷ b'e' ∷ b':' ∷ 32 ∷ b'8' ∷ b'6' ∷ b'4' ∷ b'0' ∷ b'0' ∷ 13 ∷ 10 ∷ b'C' ∷ b'o'
    ∷ b'n' ∷ b't' ∷ b'e' ∷ b'n' ∷ b't' ∷ b'-' ∷ b'L' ∷ b'e' ∷ b'n' ∷ b'g' ∷ b't' ∷ b'h' ∷ b':' ∷ 32
    ∷ b'0' ∷ 13 ∷ 10 ∷ 13 ∷ 10 ∷ []
