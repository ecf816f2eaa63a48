-- ===== src/Json/RoundTrip.antt =====
-- What `encode` writes, `decode` reads back.
use belt_pp.Base.{
  ℕ, ◌≤◌, ◌≡◌, refl, ◌∙◌, sym, ap, subst, Bool, ◌≢◌, arith, List, [], ◌∷◌, ◌++◌, append_assoc,
  append-nil, some, ok, true, false, ltb, ◌==◌, dec_lt, ℕ_discrete,
}
use belt_pp.Json.Utf.{utf32_to_utf8, utf16_check}
use belt_pp.Json.Decoder.{
  Decoder, fresh, scan, settle, flush, step, run, finish, decode, scan_escape, scan_hex,
  is_short_escape, short_escape, hex_value,
}
use belt_pp.Json.Encoder.{encode_byte, encode_bytes, encode}
use belt_pp.Json.Each.{Each, Each-lt, ◌&◌}

-- The state between two characters, `o` decoded so far.
abbrev pub between : List ℕ → Decoder
between o = fresh o

-- Decoding the code of `b` with `c` and more to come adds `b`.
abbrev Decodes : ℕ → Type 0
Decodes b =
    (o : List ℕ) (c : ℕ) (rest : List ℕ)
    → run false (between o) (encode_byte b ++ (c ∷ rest))
      ≡ run false (between (o ++ (b ∷ []))) (c ∷ rest)

control-Decodes : Each Decodes 32
unfolding encode_byte run scan_escape is_short_escape short_escape scan_hex hex_value utf32_to_utf8
    utf16_check settle scan flush step
control-Decodes =
    (λ o c rest. refl)
    & (λ o c rest. refl)
    & (λ o c rest. refl)
    & (λ o c rest. refl)
    & (λ o c rest. refl)
    & (λ o c rest. refl)
    & (λ o c rest. refl)
    & (λ o c rest. refl)
    & (λ o c rest. refl)
    & (λ o c rest. refl)
    & (λ o c rest. refl)
    & (λ o c rest. refl)
    & (λ o c rest. refl)
    & (λ o c rest. refl)
    & (λ o c rest. refl)
    & (λ o c rest. refl)
    & (λ o c rest. refl)
    & (λ o c rest. refl)
    & (λ o c rest. refl)
    & (λ o c rest. refl)
    & (λ o c rest. refl)
    & (λ o c rest. refl)
    & (λ o c rest. refl)
    & (λ o c rest. refl)
    & (λ o c rest. refl)
    & (λ o c rest. refl)
    & (λ o c rest. refl)
    & (λ o c rest. refl)
    & (λ o c rest. refl)
    & (λ o c rest. refl)
    & (λ o c rest. refl)
    & (λ o c rest. refl)
    & tt

backslash-Decodes : Decodes 92
unfolding encode_byte run step scan scan_escape is_short_escape short_escape settle flush
backslash-Decodes o c rest = refl

quote-Decodes : Decodes 34
unfolding encode_byte run step scan scan_escape is_short_escape short_escape settle flush
quote-Decodes o c rest = refl

pub encode_byte_plain : (b : ℕ) → 32 ≤ b → b ≢ 92 → b ≢ 34 → encode_byte b ≡ b ∷ []
unfolding encode_byte
encode_byte_plain b h n1 n2 =
    let t0 : ltb b 32 ≡ false = ground arith in
    let t1 : (b == 92) ≡ false = ground arith in
    let t2 : (b == 34) ≡ false = ground arith in rw (t0, t1, t2)

pub step_plain :
    (b : ℕ) (o : List ℕ)
    → 32 ≤ b
    → b ≢ 92
    → b ≢ 34
    → step false false (between o) b ≡ ok (some (between (o ++ (b ∷ []))))
unfolding step scan settle flush
step_plain b o h n1 n2 = ground arith

pub run-step :
    (first : Bool) (d d' : Decoder) (ch c : ℕ) (rest : List ℕ)
    → step first false d ch ≡ ok (some d')
    → run first d (ch ∷ c ∷ rest) ≡ run false d' (c ∷ rest)
unfolding run
run-step first d d' ch c rest e = rw e

plain-Decodes : (b : ℕ) → 32 ≤ b → b ≢ 92 → b ≢ 34 → Decodes b
plain-Decodes b h n1 n2 o c rest =
    ap (λ code. run false (between o) (code ++ (c ∷ rest))) (encode_byte_plain b h n1 n2)
    ∙ run-step false (between o) (between (o ++ (b ∷ []))) b c rest (step_plain b o h n1 n2)

byte-Decodes : (b : ℕ) → Decodes b
byte-Decodes b = elim (dec_lt b 32) [
  | yes control ↦ Each-lt Decodes 32 b control-Decodes control
  | no printable ↦ elim (ℕ_discrete b 92) [
    | yes e ↦ subst Decodes (sym e) backslash-Decodes
    | no n1 ↦ elim (ℕ_discrete b 34) [
      | yes e ↦ subst Decodes (sym e) quote-Decodes
      | no n2 ↦ plain-Decodes b (omega arith) n1 n2
    ]
  ]
]

pub nonempty :
    (xs : List ℕ) (c : ℕ) (rest : List ℕ)
    → (c' : ℕ) × (rest' : List ℕ) × (xs ++ (c ∷ rest) ≡ c' ∷ rest')
nonempty [] c rest = (c, rest, refl)
nonempty (x ∷ xs) c rest = (x, xs ++ (c ∷ rest), refl)

-- Decoding the code of a whole string adds it.
pub bytes-Decodes :
    (value o : List ℕ) (c : ℕ) (rest : List ℕ)
    → run false (between o) (encode_bytes value ++ (c ∷ rest))
      ≡ run false (between (o ++ value)) (c ∷ rest)
unfolding encode_bytes
bytes-Decodes [] o c rest = ap (λ v. run false (between v) (c ∷ rest)) (sym (append-nil o))
bytes-Decodes (b ∷ value) o c rest =
    let (c', rest', e) = nonempty (encode_bytes value) c rest in
    ap (run false (between o)) (append_assoc (encode_byte b) (encode_bytes value) (c ∷ rest))
    ∙ ap (λ xs. run false (between o) (encode_byte b ++ xs)) e
    ∙ byte-Decodes b o c' rest'
    ∙ ap (run false (between (o ++ (b ∷ [])))) (sym e)
    ∙ bytes-Decodes value (o ++ (b ∷ [])) c rest
    ∙ ap (λ v. run false (between v) (c ∷ rest)) (append_assoc o (b ∷ []) value)

pub opening :
    (o rest : List ℕ) (c : ℕ)
    → run true (fresh o) (34 ∷ c ∷ rest) ≡ run false (between o) (c ∷ rest)
opening o rest c = run-step true (fresh o) (fresh o) 34 c rest opening_step
  where
    opening_step : step true false (fresh o) 34 ≡ ok (some (fresh o))
    opening_step = unfold step scan in refl

pub closing :
    (v : List ℕ)
    → run false (between v) (34 ∷ []) ≡ ok (some (record (fresh v) { proper_ending = true }))
unfolding run step scan
closing v = refl

pub decode_from :
    (o encoded value : List ℕ)
    → run true (fresh o) encoded ≡ ok (some (record (fresh value) { proper_ending = true }))
    → decode o encoded ≡ ok (some value)
unfolding decode finish
decode_from o encoded value e = rw e

-- Behind the opening quote and the code of `value`.
pub opening_bytes :
    (o value : List ℕ) (c : ℕ) (rest : List ℕ)
    → run true (fresh o) (34 ∷ (encode_bytes value ++ (c ∷ rest)))
      ≡ run false (between (o ++ value)) (c ∷ rest)
opening_bytes o value c rest =
    let (c', rest', e) = nonempty (encode_bytes value) c rest in
    ap (λ xs. run true (fresh o) (34 ∷ xs)) e
    ∙ opening o rest' c'
    ∙ ap (run false (between o)) (sym e)
    ∙ bytes-Decodes value o c rest

-- From what `encode` writes for a string, `decode` puts that string behind what `utf8_value` has, so
-- that an empty `utf8_value` gets the string itself.
pub decode-encode : (o value : List ℕ) → decode o (encode value) ≡ ok (some (o ++ value))
unfolding encode
decode-encode o value =
    decode_from o (34 ∷ (encode_bytes value ++ (34 ∷ []))) (o ++ value)
      (opening_bytes o value 34 [] ∙ closing (o ++ value))
