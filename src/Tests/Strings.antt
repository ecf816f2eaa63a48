-- ===== src/Tests/Strings.antt =====
-- belt.pp/json.hpp on concrete string values.
use belt_pp.Base.{
  ◌≤◌, ◌≢◌, Bool, true, false, ◌==◌, ℕ, ◌≡◌, inl, arith, List, [], ◌∷◌, ◌++◌, ok, Option, some, ◌*◌,
  ◌-◌, ◌+◌,
}
use belt_pp.Json.Encoder.{encode}
use belt_pp.Json.Decoder.{decode}
use belt_pp.Json.RoundTrip.{decode-encode}
use belt_pp.Json.Unicode.{utf8_value, escape}
use belt_pp.Json.Escapes.{quoted, decode_bmp_escape, decode_pair_escape}
use belt_pp.Json.Pieces.{
  Piece, IsPiece, solidus, plain, short, unit, pair, AllMean, all_spelled, decode_pieces,
}
use belt_pp.Json.Total.{decode_total}

-- A letter, a quotation mark, a line feed and the two bytes of U+00E9.
abbrev text : List ℕ
text = b'a' ∷ 34 ∷ 10 ∷ 195 ∷ 169 ∷ []

-- What `utf8_value` has.
abbrev before : List ℕ
before = b'x' ∷ []

-- The first digit of an escape in upper case.
abbrev first_upper : ℕ → Bool
first_upper k = k == 0

decode-encode_example : decode before (encode text) ≡ ok (some (before ++ text))
decode-encode_example = decode-encode before text

decode_bmp_escape_example :
    (bytes : List ℕ) × (decode before (quoted text (escape (λ k. true) 0x20AC) text)
      ≡ ok (some (before ++ (text ++ (bytes ++ text)))))
    × (utf8_value bytes ≡ some 0x20AC)
decode_bmp_escape_example =
    decode_bmp_escape (λ k. true) before text text 0x20AC (omega arith, inl (omega arith))

decode_pair_escape_example :
    (bytes : List ℕ) × (decode []
        (quoted text (escape first_upper 0xD83D ++ escape (λ k. false) 0xDE00) [])
      ≡ ok (some ([] ++ (text ++ (bytes ++ [])))))
    × (utf8_value bytes ≡ some (0x10000 + (0xD83D - 0xD800) * 0x400 + (0xDE00 - 0xDC00)))
decode_pair_escape_example =
    decode_pair_escape first_upper (λ k. false) [] text [] 0xD83D 0xDE00 (omega arith, omega arith)
      (omega arith, omega arith)

decode_total_example : (r : Option (List ℕ)) × (decode before (34 ∷ 92 ∷ text) ≡ ok r)
decode_total_example = decode_total before (34 ∷ 92 ∷ text)

-- aé\/\u20aC\uD83D\uDE00
abbrev pieces : List Piece
pieces =
    plain b'a'
    ∷ plain 195
    ∷ plain 169
    ∷ short solidus
    ∷ unit first_upper 0x20AC
    ∷ pair first_upper (λ k. true) 0xD83D 0xDE00
    ∷ []

decode_pieces_example :
    (value : List ℕ) × AllMean pieces value
    × (decode before (34 ∷ (all_spelled pieces ++ (34 ∷ []))) ≡ ok (some (before ++ value)))
decode_pieces_example =
    let plain_byte : (b : ℕ) → 32 ≤ b → b ≢ 92 → b ≢ 34 → IsPiece (plain b) =
      λ b h m n. (h, m, n) in
    decode_pieces before pieces (
      plain_byte b'a' (omega arith) (omega arith) (omega arith),
      (
        plain_byte 195 (omega arith) (omega arith) (omega arith),
        (
          plain_byte 169 (omega arith) (omega arith) (omega arith),
          (
            tt,
            (
              (omega arith, inl (omega arith)),
              (((omega arith, omega arith), (omega arith, omega arith)), tt),
            ),
          ),
        ),
      ),
    )
