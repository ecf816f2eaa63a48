-- ===== src/Json/Escapes.antt =====
-- \u escapes of `decode` in a whole text: single codes, surrogate pairs, and lone surrogates.
use belt_pp.Base.{
  ℕ, ◌+◌, ◌-◌, ◌*◌, ◌^◌, ◌≤◌, ◌<◌, ◌≡◌, refl, ◌∙◌, Bool, sym, ap, arith, append-nil, append_assoc,
  ◌⊎◌, List, [], ◌∷◌, ◌++◌, some, ok, none, true, false, length,
}
use belt_pp.Json.Utf.{utf32_to_utf8, utf16_check, utf16_surrogate_pair_to_code_point}
use belt_pp.Json.Decoder.{fresh, settle, flush, run, decode}
use belt_pp.Json.Encoder.{encode_bytes}
use belt_pp.Json.Unicode.{utf8_value, utf32_to_utf8_lem, escape, then_run, run-escape}
use belt_pp.Json.RoundTrip.{between, nonempty, opening_bytes, closing, decode_from, bytes-Decodes}

abbrev pub IsHigh : ℕ → Type 0
IsHigh n = (0xD800 ≤ n) × (n ≤ 0xDBFF)

abbrev pub IsLow : ℕ → Type 0
IsLow n = (0xDC00 ≤ n) × (n ≤ 0xDFFF)

-- A code that is no surrogate.
abbrev pub IsBmp : ℕ → Type 0
IsBmp n = (n < 2 ^ 16) × ((n < 0xD800) ⊎ (0xDFFF < n))

settle_bmp :
    (o bytes : List ℕ) (n : ℕ)
    → IsBmp n
    → utf32_to_utf8 n ≡ ok bytes
    → settle (record (between o) { code_point = n }) [] ≡ ok (some (between (o ++ bytes)))
unfolding settle flush utf16_check
settle_bmp o bytes n (small, h) e = ground arith

settle_high :
    (o : List ℕ) (n : ℕ)
    → IsHigh n
    → settle (record (between o) { code_point = n }) []
      ≡ ok (some (record (between o) { surrogate = n }))
unfolding settle flush utf16_check
settle_high o n h = ground (arith, append-nil o)

settle_low :
    (o : List ℕ) (n : ℕ) → IsLow n → settle (record (between o) { code_point = n }) [] ≡ ok none
unfolding settle flush utf16_check
settle_low o n h = ground arith

settle_pair :
    (o bytes : List ℕ) (h l : ℕ)
    → IsHigh h
    → IsLow l
    → utf32_to_utf8 (utf16_surrogate_pair_to_code_point h l) ≡ ok bytes
    → settle (record (between o) { code_point = l; surrogate = h }) []
      ≡ ok (some (between (o ++ bytes)))
unfolding settle flush utf16_check utf16_surrogate_pair_to_code_point
settle_pair o bytes h l hi lo e = ground arith

pub pair_code :
    (h l : ℕ)
    → utf16_surrogate_pair_to_code_point h l ≡ 0x10000 + (h - 0xD800) * 0x400 + (l - 0xDC00)
unfolding utf16_surrogate_pair_to_code_point
pair_code h l = omega arith

-- An escape of a code that is no surrogate puts its UTF-8 bytes into the value.
pub bmp-Decodes :
    (upper : ℕ → Bool) (o bytes : List ℕ) (n c : ℕ) (rest : List ℕ)
    → IsBmp n
    → utf32_to_utf8 n ≡ ok bytes
    → run false (between o) (escape upper n ++ (c ∷ rest))
      ≡ run false (between (o ++ bytes)) (c ∷ rest)
bmp-Decodes upper o bytes n c rest h e =
    run-escape upper (between o) n c rest h.0 refl refl
    ∙ ap (λ r. then_run r (c ∷ rest)) (settle_bmp o bytes n h e)

pub pair-Decodes :
    (upper upper' : ℕ → Bool) (o bytes : List ℕ) (h l c : ℕ) (rest : List ℕ)
    → IsHigh h
    → IsLow l
    → utf32_to_utf8 (utf16_surrogate_pair_to_code_point h l) ≡ ok bytes
    → run false (between o) (escape upper h ++ (escape upper' l ++ (c ∷ rest)))
      ≡ run false (between (o ++ bytes)) (c ∷ rest)
pair-Decodes upper upper' o bytes h l c rest hi lo e =
    let (c', rest', first) = nonempty (escape upper' l) c rest in
    ap (λ xs. run false (between o) (escape upper h ++ xs)) first
    ∙ run-escape upper (between o) h c' rest' (omega arith) refl refl
    ∙ ap (λ r. then_run r (c' ∷ rest')) (settle_high o h hi)
    ∙ ap (run false (record (between o) { surrogate = h })) (sym first)
    ∙ run-escape upper' (record (between o) { surrogate = h }) l c rest (omega arith) refl refl
    ∙ ap (λ r. then_run r (c ∷ rest)) (settle_pair o bytes h l hi lo e)

-- A quoted text with `code` between the codes of `u` and `v`.
abbrev pub quoted : List ℕ → List ℕ → List ℕ → List ℕ
quoted u code v = 34 ∷ (encode_bytes u ++ (code ++ (encode_bytes v ++ (34 ∷ []))))

quoted-Decodes :
    (o u v code bytes : List ℕ)
    → ((c : ℕ) (rest : List ℕ)
        → run false (between (o ++ u)) (code ++ (c ∷ rest))
          ≡ run false (between ((o ++ u) ++ bytes)) (c ∷ rest))
    → 0 < length code
    → decode o (quoted u code v) ≡ ok (some (o ++ (u ++ (bytes ++ v))))
quoted-Decodes o u v code bytes passes some_code =
    let (c, rest, e) = nonempty (encode_bytes v) 34 [] in
    let (c', rest', e') = nonempty code c rest in
    let same : ((o ++ u) ++ bytes) ++ v ≡ o ++ (u ++ (bytes ++ v)) =
      append_assoc (o ++ u) bytes v ∙ append_assoc o u (bytes ++ v) in
    decode_from o (quoted u code v) (o ++ (u ++ (bytes ++ v))) (
      ap (λ xs. run true (fresh o) (34 ∷ (encode_bytes u ++ (code ++ xs)))) e
      ∙ ap (λ xs. run true (fresh o) (34 ∷ (encode_bytes u ++ xs))) e'
      ∙ opening_bytes o u c' rest'
      ∙ ap (run false (between (o ++ u))) (sym e')
      ∙ passes c rest
      ∙ ap (run false (between ((o ++ u) ++ bytes))) (sym e)
      ∙ bytes-Decodes v ((o ++ u) ++ bytes) 34 []
      ∙ closing (((o ++ u) ++ bytes) ++ v)
      ∙ ap (λ w. ok (some (record (fresh w) { proper_ending = true }))) same)

-- Between two texts as `encode` writes them, `decode` turns the \u escape of a 16-bit code that is no
-- surrogate, each of its four digits in upper or in lower case, into the UTF-8 bytes of that code,
-- in their shortest form, and puts them, with the texts before and behind, behind what `utf8_value`
-- has.
pub decode_bmp_escape :
    (upper : ℕ → Bool) (o u v : List ℕ) (n : ℕ)
    → IsBmp n
    → (bytes : List ℕ) × (decode o (quoted u (escape upper n) v)
        ≡ ok (some (o ++ (u ++ (bytes ++ v)))))
      × (utf8_value bytes ≡ some n)
decode_bmp_escape upper o u v n h =
    let (bytes, e, stands, _, _) = utf32_to_utf8_lem n (omega arith) in
    (
      bytes,
      quoted-Decodes o u v (escape upper n) bytes
          (λ c rest. bmp-Decodes upper (o ++ u) bytes n c rest h e) (omega arith),
      stands,
    )

-- Between two texts as `encode` writes them, `decode` turns the \u escapes of a high and a low
-- surrogate, each digit in upper or in lower case, into the UTF-8 bytes of the code point of the pair,
-- in their shortest form, and puts them, with the texts before and behind, behind what `utf8_value`
-- has.
pub decode_pair_escape :
    (upper upper' : ℕ → Bool) (o u v : List ℕ) (h l : ℕ)
    → IsHigh h
    → IsLow l
    → (bytes : List ℕ) × (decode o (quoted u (escape upper h ++ escape upper' l) v)
        ≡ ok (some (o ++ (u ++ (bytes ++ v)))))
      × (utf8_value bytes ≡ some (0x10000 + (h - 0xD800) * 0x400 + (l - 0xDC00)))
decode_pair_escape upper upper' o u v h l hi lo =
    let cp = utf16_surrogate_pair_to_code_point h l in
    let e_cp : cp ≡ 0x10000 + (h - 0xD800) * 0x400 + (l - 0xDC00) = pair_code h l in
    let (bytes, e, stands, _, _) = utf32_to_utf8_lem cp (omega arith) in
    (
      bytes,
      quoted-Decodes o u v (escape upper h ++ escape upper' l) bytes
          (λ c rest.
            ap (run false (between (o ++ u)))
              (append_assoc (escape upper h) (escape upper' l) (c ∷ rest))
            ∙ pair-Decodes upper upper' (o ++ u) bytes h l c rest hi lo e)
          (omega arith),
      stands ∙ ap some e_cp,
    )

decode-none :
    (o encoded : List ℕ) → run true (fresh o) encoded ≡ ok none → decode o encoded ≡ ok none
unfolding decode
decode-none o encoded e = rw e

-- `decode` refuses a text in which the escape of a low surrogate follows no high one.
pub decode_low_escape :
    (upper : ℕ → Bool) (o u v : List ℕ) (l : ℕ)
    → IsLow l
    → decode o (quoted u (escape upper l) v) ≡ ok none
decode_low_escape upper o u v l lo =
    let (c, rest, e) = nonempty (encode_bytes v) 34 [] in
    let (c', rest', e') = nonempty (escape upper l) c rest in
    decode-none o (quoted u (escape upper l) v) (
      ap (λ xs. run true (fresh o) (34 ∷ (encode_bytes u ++ (escape upper l ++ xs)))) e
      ∙ ap (λ xs. run true (fresh o) (34 ∷ (encode_bytes u ++ xs))) e'
      ∙ opening_bytes o u c' rest'
      ∙ ap (run false (between (o ++ u))) (sym e')
      ∙ run-escape upper (between (o ++ u)) l c rest (omega arith) refl refl
      ∙ ap (λ r. then_run r (c ∷ rest)) (settle_low (o ++ u) l lo))
