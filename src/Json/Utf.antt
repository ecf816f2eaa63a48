-- ===== src/Json/Utf.antt =====
-- belt.pp/json.hpp: UTF-16 surrogates and the UTF-8 encoding of a code point.
use belt_pp.Base.{
  ℕ, ◌+◌, ◌-◌, ◌*◌, ◌/◌, ◌%◌, ◌^◌, ◌&&◌, List, [], ◌∷◌, leb, if◌then◌else◌, Result, ok, err,
  terminate,
}

pub data Utf16Range : Type 0 where
  bmp high low : Utf16Range

unfoldable pub utf16_check : ℕ → Utf16Range
utf16_check code =
    if leb 0xD800 code && leb code 0xDBFF
    then high
    else if leb 0xDC00 code && leb code 0xDFFF
    then low
    else bmp

-- `hi` and `lo` are a high and a low surrogate where this is called, so nothing goes below 0.
unfoldable pub utf16_surrogate_pair_to_code_point : ℕ → ℕ → ℕ
utf16_surrogate_pair_to_code_point hi lo = 0x10000 + 0x400 * (hi - 0xD800) + (lo - 0xDC00)

-- The bytes put into `buffer`. The operands of each `|` have no bit in common, so it is a sum;
-- `cp & 0x3F` is the remainder by 64.
unfoldable pub utf32_to_utf8 : ℕ → Result (List ℕ)
utf32_to_utf8 cp =
    if leb cp 0x7F
    then ok (cp ∷ [])
    else if leb cp 0x7FF
    then ok ((0xC0 + cp / 2 ^ 6) ∷ (0x80 + cp % 64) ∷ [])
    else if leb cp 0xFFFF
    then ok ((0xE0 + cp / 2 ^ 12) ∷ (0x80 + cp / 2 ^ 6 % 64) ∷ (0x80 + cp % 64) ∷ [])
    else if leb cp 0x10FFFF
    then ok (
        (0xF0 + cp / 2 ^ 18)
        ∷ (0x80 + cp / 2 ^ 12 % 64)
        ∷ (0x80 + cp / 2 ^ 6 % 64)
        ∷ (0x80 + cp % 64)
        ∷ [])
    else err terminate
