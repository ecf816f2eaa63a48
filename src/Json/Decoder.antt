-- ===== src/Json/Decoder.antt =====
-- belt.pp/json.hpp: `value_string::decode`, one byte at a time.
use belt_pp.Base.{
  is_empty, ℕ, ◌+◌, ◌-◌, ◌*◌, ◌%◌, ◌^◌, Bool, true, false, ◌&&◌, ◌||◌, not, List, [], ◌∷◌, ◌++◌,
  Option, none, some, leb, ltb, ◌==◌, if◌then◌else◌, Result, ok, ◌>>=◌,
}
use belt_pp.Json.Utf.{
  utf16_check, bmp, high, low, utf16_surrogate_pair_to_code_point, utf32_to_utf8,
}

-- `uint32_t(-1)`, by which a code point is not set.
abbrev pub unset : ℕ
unset = 2 ^ 32 - 1

-- The variables of the loop. `code`, once false, ends it: the loop's steps return `none` there.
pub record Decoder : Type 0 where
  pub index : ℕ
  pub remaining : ℕ
  pub code_point : ℕ
  pub surrogate : ℕ
  pub proper_ending : Bool
  pub value : List ℕ

-- The state at the start, `value` being what `utf8_value` has from the caller.
abbrev pub fresh : List ℕ → Decoder
fresh value = record {
  index = 0;
  remaining = 0;
  code_point = unset;
  surrogate = unset;
  proper_ending = false;
  value = value;
}

-- `tolower` in the "C" locale.
abbrev pub tolower : ℕ → ℕ
tolower ch = if leb b'A' ch && leb ch b'Z' then ch + 32 else ch

unfoldable pub is_short_escape : ℕ → Bool
is_short_escape ch =
    ch == 34
    || ch == 92
    || ch == b'/'
    || ch == b'b'
    || ch == b'f'
    || ch == b'n'
    || ch == b'r'
    || ch == b't'

-- The byte that a short escape stands for.
unfoldable pub short_escape : ℕ → ℕ
short_escape ch =
    if ch == b'b'
    then 0x08
    else if ch == b'f'
    then 0x0c
    else if ch == b'n'
    then 0x0a
    else if ch == b'r'
    then 0x0d
    else if ch == b't'
    then 0x09
    else ch

-- The value of a hexadecimal digit.
unfoldable pub hex_value : ℕ → Option ℕ
hex_value ch =
    if leb b'0' ch && leb ch b'9'
    then some (ch - b'0')
    else if leb b'a' (tolower ch) && leb (tolower ch) b'f'
    then some (10 + tolower ch - b'a')
    else none

-- The byte behind a backslash.
unfoldable pub scan_escape : Decoder → ℕ → Option (Decoder × List ℕ)
scan_escape d ch =
    if is_short_escape ch
    then some (record d { index = 0; remaining = 0 }, short_escape ch ∷ [])
    else if ch == b'u'
    then some (record d { index = d.index + 1; remaining = 4 }, [])
    else none

-- A digit of a \u escape.
unfoldable pub scan_hex : Decoder → ℕ → Option (Decoder × List ℕ)
scan_hex d ch = elim (hex_value ch) [
  | none ↦ none
  | some v ↦ some (
    record d {
      index = if d.remaining - 1 == 0 then 0 else d.index + 1;
      remaining = d.remaining - 1;
      code_point = if d.index == 2 then v else (d.code_point * 16 + v) % 2 ^ 32;
    },
    [],
  )
]

-- The chain of tests on the byte, up to the common part: the state and `item`. `first` is
-- `it_begin == it`, `last` is that no byte follows.
unfoldable pub scan : Bool → Bool → Decoder → ℕ → Option (Decoder × List ℕ)
scan first last d ch =
    if first
    then (if ch == 34 then some (d, []) else none)
    else if d.remaining == 0 && ch == 92
    then some (record d { remaining = d.remaining + 1; index = 1 }, [])
    else if ltb 0 d.remaining && d.index == 1
    then scan_escape d ch
    else if ltb 0 d.remaining
    then scan_hex d ch
    else if ch == 34
    then (if last then some (record d { proper_ending = true }, []) else none)
    else if ltb ch 0x20
    then none
    else some (d, ch ∷ [])

-- `utf8_value += item`, with the code point in `item` if one is set.
unfoldable pub flush : Decoder → List ℕ → Result (Option Decoder)
flush d item =
    if d.code_point == unset then ok (some (record d { value = d.value ++ item })) else (do
      bytes ← utf32_to_utf8 d.code_point
      ok (some (record d { code_point = unset; value = d.value ++ (item ++ bytes) })))

-- The common part: surrogates, and what goes to `utf8_value`.
unfoldable pub settle : Decoder → List ℕ → Result (Option Decoder)
settle d item = elim (d.surrogate == unset) [
  | false ↦ elim (d.code_point == unset) [
    | true ↦ ok none
    | false ↦ elim (utf16_check (d.code_point % 2 ^ 16)) [
      | low ↦
          flush
            (record d {
              code_point =
                  utf16_surrogate_pair_to_code_point (d.surrogate % 2 ^ 16) (d.code_point % 2 ^ 16);
              surrogate = unset;
            })
            item
      | _ ↦ ok none
    ]
  ]
  | true ↦ elim (d.code_point == unset) [
    | true ↦ flush d item
    | false ↦ elim (utf16_check (d.code_point % 2 ^ 16)) [
      | high ↦ flush (record d { surrogate = d.code_point; code_point = unset }) item
      | low ↦ ok none
      | bmp ↦ flush d item
    ]
  ]
]

unfoldable pub step : Bool → Bool → Decoder → ℕ → Result (Option Decoder)
step first last d ch = elim (scan first last d ch) [
  | none ↦ ok none
  | some (d', item) ↦
      if d'.remaining == 0 && not d'.proper_ending && not first
      then settle d' item
      else ok (some d')
]

-- The loop over the bytes.
unfoldable pub run : Bool → Decoder → List ℕ → Result (Option Decoder)
run first d [] = ok (some d)
run first d (ch ∷ rest) =
    let go = λ (d' : Decoder). run false d' rest in
    step first (is_empty rest) d ch >>= λ o. elim o [ none ↦ ok none | some d' ↦ go d' ]

-- The checks behind the loop.
unfoldable pub finish : Decoder → Option (List ℕ)
finish d =
    if not d.proper_ending
      || not (d.code_point == unset)
      || not (d.surrogate == unset)
      || not (d.remaining == 0)
    then none
    else some d.value

-- `decode` on what `utf8_value` has from the caller: `none` is the result false, with `utf8_value`
-- cleared.
unfoldable pub decode : List ℕ → List ℕ → Result (Option (List ℕ))
decode value encoded = do
  o ← run true (fresh value) encoded
  ok (elim o [ none ↦ none | some d ↦ finish d ])
