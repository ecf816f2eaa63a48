-- ===== src/Json/Unicode.antt =====
-- The UTF-8 encoding of code points, and the \u escapes of `decode`.
use belt_pp.Base.{
  ℕ, ◌+◌, ◌-◌, ◌*◌, ◌/◌, ◌%◌, ◌^◌, ◌≤◌, ◌<◌, ◌≡◌, refl, ◌∙◌, ap, arith, List, [], ◌∷◌, ◌++◌, Option,
  some, ok, none, true, false, Bool, ◌&&◌, leb, ltb, if◌then◌else◌, dec_le, Result, length, ◌>>=◌,
}
use belt_pp.Json.Utf.{utf32_to_utf8}
use belt_pp.Json.Decoder.{
  Decoder, scan, settle, step, run, scan_escape, scan_hex, is_short_escape, hex_value,
}
use belt_pp.Json.RoundTrip.{run-step}

-- A continuation byte, 10xxxxxx.
abbrev is_tail : ℕ → Bool
is_tail b = leb 0x80 b && ltb b 0xC0

-- A code point that fewer bytes could stand for is not well formed.
abbrev shortest : ℕ → ℕ → Option ℕ
shortest least cp = if ltb cp least then none else some cp

-- What a UTF-8 sequence stands for, by its leading byte.
abbrev pub utf8_value : List ℕ → Option ℕ
utf8_value (a ∷ []) = if ltb a 0x80 then some a else none
utf8_value (a ∷ b ∷ []) =
    if leb 0xC0 a && ltb a 0xE0 && is_tail b
    then shortest 0x80 ((a - 0xC0) * 2 ^ 6 + (b - 0x80))
    else none
utf8_value (a ∷ b ∷ c ∷ []) =
    if leb 0xE0 a && ltb a 0xF0 && is_tail b && is_tail c
    then shortest 0x800 ((a - 0xE0) * 2 ^ 12 + (b - 0x80) * 2 ^ 6 + (c - 0x80))
    else none
utf8_value (a ∷ b ∷ c ∷ d ∷ []) =
    if leb 0xF0 a && ltb a 0xF8 && is_tail b && is_tail c && is_tail d
    then shortest 0x10000
        ((a - 0xF0) * 2 ^ 18 + (b - 0x80) * 2 ^ 12 + (c - 0x80) * 2 ^ 6 + (d - 0x80))
    else none
utf8_value _ = none

-- Up to 0x10FFFF `utf32_to_utf8` returns one to four bytes that stand for the code point.
pub utf32_to_utf8_lem :
    (cp : ℕ)
    → cp ≤ 0x10FFFF
    → (bytes : List ℕ) × (utf32_to_utf8 cp ≡ ok bytes)
      × (utf8_value bytes ≡ some cp)
      × (0 < length bytes)
      × (length bytes ≤ 4)
unfolding utf32_to_utf8
utf32_to_utf8_lem cp h = elim (dec_le cp 0x7F) [
  | yes one ↦ (cp ∷ [], ground arith, ground arith, omega arith, omega arith)
  | no n1 ↦ elim (dec_le cp 0x7FF) [
    | yes two ↦ (
      (0xC0 + cp / 2 ^ 6) ∷ (0x80 + cp % 64) ∷ [],
      ground arith,
      ground arith,
      omega arith,
      omega arith,
    )
    | no n2 ↦ elim (dec_le cp 0xFFFF) [
      | yes three ↦ (
        (0xE0 + cp / 2 ^ 12) ∷ (0x80 + cp / 2 ^ 6 % 64) ∷ (0x80 + cp % 64) ∷ [],
        ground arith,
        ground arith,
        omega arith,
        omega arith,
      )
      | no n3 ↦ (
        (0xF0 + cp / 2 ^ 18)
            ∷ (0x80 + cp / 2 ^ 12 % 64)
            ∷ (0x80 + cp / 2 ^ 6 % 64)
            ∷ (0x80 + cp % 64)
            ∷ [],
        ground arith,
        ground arith,
        omega arith,
        omega arith,
      )
    ]
  ]
]

-- The hexadecimal digit of a number below 16, in upper or in lower case.
abbrev pub hex_digit : Bool → ℕ → ℕ
hex_digit upper v = if ltb v 10 then b'0' + v else if upper then b'A' + v - 10 else b'a' + v - 10

hex_value-hex_digit : (upper : Bool) (v : ℕ) → v < 16 → hex_value (hex_digit upper v) ≡ some v
unfolding hex_value
hex_value-hex_digit true v h = ground arith
hex_value-hex_digit false v h = ground arith

-- The text `\uXXXX` of a 16-bit code; `upper` gives the case of each of the digits 0 to 3.
abbrev pub escape : (ℕ → Bool) → ℕ → List ℕ
escape upper n =
    92
    ∷ b'u'
    ∷ hex_digit (upper 0) (n / 4096)
    ∷ hex_digit (upper 1) (n / 256 % 16)
    ∷ hex_digit (upper 2) (n / 16 % 16)
    ∷ hex_digit (upper 3) (n % 16)
    ∷ []

-- The state within an escape, before digit `k`.
abbrev within : Decoder → ℕ → ℕ → Decoder
within d k cp = record d { index = 2 + k; remaining = 4 - k; code_point = cp }

-- A digit that is not the last goes to the code.
first_hex_step :
    (upper : Bool) (d : Decoder) (cp v : ℕ)
    → v < 16
    → step false false (within d 0 cp) (hex_digit upper v) ≡ ok (some (within d 1 v))
unfolding step scan scan_hex
first_hex_step upper d cp v hv = rw (hex_value-hex_digit upper v hv, step)

hex_step :
    (upper : Bool) (d : Decoder) (cp v : ℕ)
    → v < 16
    → cp < 2 ^ 16
    → (step false false (within d 1 cp) (hex_digit upper v) ≡ ok (some (within d 2 (cp * 16 + v))))
      × (step false false (within d 2 cp) (hex_digit upper v)
          ≡ ok (some (within d 3 (cp * 16 + v))))
unfolding step scan scan_hex
hex_step upper d cp v hv hc =
    let e = hex_value-hex_digit upper v hv in
    let small : (cp * 16 + v) % 2 ^ 32 ≡ cp * 16 + v = omega arith in
    (rw (e, step, small), rw (e, step, small))

-- The last digit completes the code, which then goes to the common part.
last_hex_step :
    (upper : Bool) (d : Decoder) (cp v : ℕ)
    → v < 16
    → cp < 2 ^ 12
    → d.proper_ending ≡ false
    → step false false (within d 3 cp) (hex_digit upper v)
      ≡ settle (record d { index = 0; remaining = 0; code_point = cp * 16 + v }) []
unfolding step scan scan_hex
last_hex_step upper d cp v hv hc open_end =
    let e = hex_value-hex_digit upper v hv in
    let small : (cp * 16 + v) % 2 ^ 32 ≡ cp * 16 + v = omega arith in rw (e, step, small, open_end)

pub escape_start :
    (d : Decoder)
    → d.remaining ≡ 0
    → (step false false d 92 ≡ ok (some (record d { remaining = 1; index = 1 })))
      × (step false false (record d { remaining = 1; index = 1 }) b'u'
          ≡ ok (some (within d 0 d.code_point)))
unfolding step scan scan_escape is_short_escape
escape_start d r = (ground arith, refl)

-- What the loop does with the rest of the input behind a step.
abbrev pub then_run : Result (Option Decoder) → List ℕ → Result (Option Decoder)
then_run r rest = r >>= λ o. elim o [ none ↦ ok none | some d ↦ run false d rest ]

run-then :
    (d : Decoder) (ch c : ℕ) (rest : List ℕ)
    → run false d (ch ∷ c ∷ rest) ≡ then_run (step false false d ch) (c ∷ rest)
unfolding run
run-then d ch c rest = refl

-- Reading an escape is reading its code.
pub run-escape :
    (upper : ℕ → Bool) (d : Decoder) (n c : ℕ) (rest : List ℕ)
    → n < 2 ^ 16
    → d.remaining ≡ 0
    → d.proper_ending ≡ false
    → run false d (escape upper n ++ (c ∷ rest))
      ≡ then_run (settle (record d { index = 0; remaining = 0; code_point = n }) []) (c ∷ rest)
run-escape upper d n c rest small r open_end =
    let (s1, s2) = escape_start d r in
    let n1 = n / 4096 in
    let n2 = n1 * 16 + n / 256 % 16 in
    let n3 = n2 * 16 + n / 16 % 16 in
    let total : n3 * 16 + n % 16 ≡ n = omega arith in
    run-step false _ _ _ _ _ s1
    ∙ run-step false _ _ _ _ _ s2
    ∙ run-step false _ _ _ _ _ (first_hex_step (upper 0) d d.code_point n1 (omega arith))
    ∙ run-step false _ _ _ _ _
        ((hex_step (upper 1) d n1 (n / 256 % 16) (omega arith) (omega arith)).0)
    ∙ run-step false _ _ _ _ _
        ((hex_step (upper 2) d n2 (n / 16 % 16) (omega arith) (omega arith)).1)
    ∙ run-then _ _ c rest
    ∙ ap (λ r. then_run r (c ∷ rest))
        (last_hex_step (upper 3) d n3 (n % 16) (omega arith) (omega arith) open_end)
    ∙ ap
        (λ k.
          then_run (settle (record d { index = 0; remaining = 0; code_point = k }) []) (c ∷ rest))
        total
