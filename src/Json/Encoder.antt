-- ===== src/Json/Encoder.antt =====
-- belt.pp/json.hpp: `value_string::encode`.
use belt_pp.Base.{ℕ, List, [], ◌∷◌, ◌++◌, get_or, ltb, ◌==◌, if◌then◌else◌}

-- The text `\\u00` with two more digits.
abbrev pub unicode : ℕ → ℕ → List ℕ
unicode hi lo = 92 ∷ b'u' ∷ b'0' ∷ b'0' ∷ hi ∷ lo ∷ []

-- What the cases of the `switch` write for the control characters, 0x00 to 0x1f.
abbrev pub control_escapes : List (List ℕ)
control_escapes =
    unicode b'0' b'0'
    ∷ unicode b'0' b'1'
    ∷ unicode b'0' b'2'
    ∷ unicode b'0' b'3'
    ∷ unicode b'0' b'4'
    ∷ unicode b'0' b'5'
    ∷ unicode b'0' b'6'
    ∷ unicode b'0' b'7'
    ∷ (92 ∷ b'b' ∷ [])
    ∷ (92 ∷ b't' ∷ [])
    ∷ (92 ∷ b'n' ∷ [])
    ∷ unicode b'0' b'b'
    ∷ (92 ∷ b'f' ∷ [])
    ∷ (92 ∷ b'r' ∷ [])
    ∷ unicode b'0' b'e'
    ∷ unicode b'0' b'f'
    ∷ unicode b'1' b'0'
    ∷ unicode b'1' b'1'
    ∷ unicode b'1' b'2'
    ∷ unicode b'1' b'3'
    ∷ unicode b'1' b'4'
    ∷ unicode b'1' b'5'
    ∷ unicode b'1' b'6'
    ∷ unicode b'1' b'7'
    ∷ unicode b'1' b'8'
    ∷ unicode b'1' b'9'
    ∷ unicode b'1' b'a'
    ∷ unicode b'1' b'b'
    ∷ unicode b'1' b'c'
    ∷ unicode b'1' b'd'
    ∷ unicode b'1' b'e'
    ∷ unicode b'1' b'f'
    ∷ []

unfoldable pub encode_byte : ℕ → List ℕ
encode_byte ch =
    if ltb ch 0x20
    then get_or control_escapes ch []
    else if ch == 92
    then 92 ∷ 92 ∷ []
    else if ch == 34
    then 92 ∷ 34 ∷ []
    else ch ∷ []

unfoldable pub encode_bytes : List ℕ → List ℕ
unfolding encode_byte
encode_bytes [] = []
encode_bytes (ch ∷ rest) = encode_byte ch ++ encode_bytes rest

unfoldable pub encode : List ℕ → List ℕ
unfolding encode_bytes
encode value = 34 ∷ (encode_bytes value ++ (34 ∷ []))
