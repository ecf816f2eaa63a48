-- ===== src/Http/Number.antt =====
-- belt.pp/global.hpp: `stoui64`, over the C library's `strtoull` with base 0.
use belt_pp.Base.{
  ℕ, suc, ◌+◌, ◌-◌, ◌*◌, ◌%◌, ◌^◌, Bool, true, false, ◌&&◌, ◌||◌, List, [], ◌∷◌, Option, none, some,
  leb, ltb, ◌==◌, if◌then◌else◌,
}
use belt_pp.Http.Percent.{digit}

-- A digit in a base up to 16.
unfoldable pub digit_below : ℕ → ℕ → Option ℕ
digit_below base c = elim (digit c) [ none ↦ none | some v ↦ if ltb v base then some v else none ]

-- The value of the digits in front of a text, unbounded, and how many there are.
unfoldable pub digits_from : ℕ → ℕ → ℕ → List ℕ → ℕ × ℕ
digits_from base value count [] = (value, count)
digits_from base value count (c ∷ text) =
    let go = λ (v : ℕ). digits_from base (value * base + v) (suc count) text in
    elim (digit_below base c) [ none ↦ (value, count) | some v ↦ go v ]

unfoldable pub begins_digit : ℕ → List ℕ → Bool
begins_digit base [] = false
begins_digit base (c ∷ text) = elim (digit_below base c) [ none ↦ false | some v ↦ true ]

-- With the prefix that chooses the base.
unfoldable pub unsigned_from : List ℕ → ℕ × ℕ
unsigned_from [] = (0, 0)
unsigned_from (c ∷ []) = digits_from 10 0 0 (c ∷ [])
unsigned_from (c ∷ (x ∷ text)) =
    if c == b'0' && (x == b'x' || x == b'X') && begins_digit 16 text
    then (digits_from 16 0 2 text)
    else if c == b'0'
    then digits_from 8 0 0 (c ∷ (x ∷ text))
    else digits_from 10 0 0 (c ∷ (x ∷ text))

abbrev max64 : ℕ
max64 = 2 ^ 64 - 1

-- Too large a number is `ULLONG_MAX`; a minus sign negates modulo 2 ^ 64; without a digit nothing
-- is read, the `skipped` characters neither.
abbrev pub with_sign : ℕ → Bool → ℕ × ℕ → ℕ × ℕ
with_sign skipped negative (value, count) =
    if count == 0
    then (0, 0)
    else if ltb max64 value
    then (max64, skipped + count)
    else if negative
    then ((2 ^ 64 - value) % 2 ^ 64, skipped + count)
    else (value, skipped + count)

unfoldable pub strtoull_from : ℕ → List ℕ → ℕ × ℕ
strtoull_from skipped [] = (0, 0)
strtoull_from skipped (c ∷ text) =
    let go = strtoull_from (suc skipped) text in
    if c == b' ' || (leb 9 c && leb c 13)
    then go
    else if c == b'-'
    then with_sign (suc skipped) true (unsigned_from text)
    else if c == b'+'
    then with_sign (suc skipped) false (unsigned_from text)
    else with_sign skipped false (unsigned_from (c ∷ text))

-- The number and `pos`. The text has no byte 0, where `c_str` would end.
unfoldable pub stoui64 : List ℕ → ℕ × ℕ
stoui64 value = strtoull_from 0 value
