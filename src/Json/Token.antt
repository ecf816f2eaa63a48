-- ===== src/Json/Token.antt =====
-- What `encode` writes, the lexer takes as one token.
use belt_pp.Base.{
  ℕ, ◌≤◌, ◌≡◌, refl, ◌∙◌, sym, ap, subst, ◌≢◌, arith, List, [], ◌∷◌, ◌++◌, append_assoc, some,
  dec_lt, ℕ_discrete,
}
use belt_pp.Json.Encoder.{encode_byte, encode_bytes, encode}
use belt_pp.Json.Lexer.{parse, parse_from, verdict, plain, go, is_hex}
use belt_pp.Json.RoundTrip.{encode_byte_plain}
use belt_pp.Json.Each.{Each, Each-lt, ◌&◌}

-- The lexer passes over the code of `b`.
abbrev Passes : ℕ → Type 0
Passes b =
    (whole rest : List ℕ)
    → parse_from whole plain (encode_byte b ++ rest) ≡ parse_from whole plain rest

control-Passes : Each Passes 32
unfolding encode_byte parse_from verdict is_hex
control-Passes =
    (λ whole rest. refl)
    & (λ whole rest. refl)
    & (λ whole rest. refl)
    & (λ whole rest. refl)
    & (λ whole rest. refl)
    & (λ whole rest. refl)
    & (λ whole rest. refl)
    & (λ whole rest. refl)
    & (λ whole rest. refl)
    & (λ whole rest. refl)
    & (λ whole rest. refl)
    & (λ whole rest. refl)
    & (λ whole rest. refl)
    & (λ whole rest. refl)
    & (λ whole rest. refl)
    & (λ whole rest. refl)
    & (λ whole rest. refl)
    & (λ whole rest. refl)
    & (λ whole rest. refl)
    & (λ whole rest. refl)
    & (λ whole rest. refl)
    & (λ whole rest. refl)
    & (λ whole rest. refl)
    & (λ whole rest. refl)
    & (λ whole rest. refl)
    & (λ whole rest. refl)
    & (λ whole rest. refl)
    & (λ whole rest. refl)
    & (λ whole rest. refl)
    & (λ whole rest. refl)
    & (λ whole rest. refl)
    & (λ whole rest. refl)
    & tt

verdict-plain : (b : ℕ) → 32 ≤ b → b ≢ 92 → b ≢ 34 → verdict plain b ≡ go plain
unfolding verdict
verdict-plain b h n1 n2 = ground arith

parse_plain :
    (b : ℕ) (whole rest : List ℕ)
    → 32 ≤ b
    → b ≢ 92
    → b ≢ 34
    → parse_from whole plain (b ∷ rest) ≡ parse_from whole plain rest
unfolding parse_from
parse_plain b whole rest h n1 n2 = rw (verdict-plain b h n1 n2, parse_from)

byte-Passes : (b : ℕ) → Passes b
byte-Passes b = elim (dec_lt b 32) [
  | yes control ↦ Each-lt Passes 32 b control-Passes control
  | no printable ↦ elim (ℕ_discrete b 92) [
    | yes e ↦ subst Passes (sym e) (λ whole rest. unfold encode_byte parse_from verdict in refl)
    | no n1 ↦ elim (ℕ_discrete b 34) [
      | yes e ↦ subst Passes (sym e) (λ whole rest. unfold encode_byte parse_from verdict in refl)
      | no n2 ↦ λ whole rest.
          ap (λ code. parse_from whole plain (code ++ rest))
            (encode_byte_plain b (omega arith) n1 n2)
          ∙ parse_plain b whole rest (omega arith) n1 n2
    ]
  ]
]

bytes-Passes :
    (value whole rest : List ℕ)
    → parse_from whole plain (encode_bytes value ++ (34 ∷ rest)) ≡ some rest
unfolding encode_bytes
bytes-Passes [] whole rest = unfold parse_from verdict in refl
bytes-Passes (b ∷ value) whole rest =
    ap (parse_from whole plain) (append_assoc (encode_byte b) (encode_bytes value) (34 ∷ rest))
    ∙ byte-Passes b whole (encode_bytes value ++ (34 ∷ rest))
    ∙ bytes-Passes value whole rest

-- The lexer takes what `encode` writes as one whole token, whatever follows it.
pub parse-encode : (value rest : List ℕ) → parse (encode value ++ rest) ≡ some rest
unfolding encode parse
parse-encode value rest =
    ap (parse_from (encode value ++ rest) plain) (append_assoc (encode_bytes value) (34 ∷ []) rest)
    ∙ bytes-Passes value (encode value ++ rest) rest
