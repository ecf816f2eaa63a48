-- ===== src/Json/Total.antt =====
-- `decode` ends on every text: `utf32_to_utf8` never meets a code beyond 0x10FFFF, where it would
-- call `std::terminate`.
use belt_pp.Base.{
  is_empty, ℕ, ◌%◌, ◌^◌, ◌≤◌, ◌<◌, ◌≡◌, refl, arith, ◌⊎◌, inl, inr, List, [], ◌>>=◌, ◌∷◌, Option,
  some, none, Result, ok, err, true, false, Bool, leb, ◌==◌, if◌then◌else◌, if_cases, Option-cases,
  Bool-cases, ℕ_discrete, ◌&&◌, not, subst,
}
use belt_pp.Json.Utf.{utf16_check, bmp, high, low, utf16_surrogate_pair_to_code_point}
use belt_pp.Json.Decoder.{Decoder, fresh, scan, settle, flush, step, run, finish, decode, unset}
use belt_pp.Json.Unicode.{utf32_to_utf8_lem}
use belt_pp.Json.Escapes.{IsHigh, IsLow, pair_code}
use belt_pp.Json.Phases.{
  Phase, between_chars, HighOrUnset, Inv, Scanned, going, complete, ScanInv, Phase-unset,
  scan-ScanInv,
}

-- What a byte leaves: a state in a phase unless the byte was the last, and never an error.
abbrev Ends : Bool → Result (Option Decoder) → Type 0
Ends last (ok none) = Unit {0}
Ends last (ok (some d)) = last ≡ false → Inv d
Ends last (err f) = ⊥

flush-Ends :
    (last : Bool) (d : Decoder) (item : List ℕ)
    → d.remaining ≡ 0
    → d.proper_ending ≡ false
    → (d.code_point ≡ unset) ⊎ (d.code_point ≤ 0x10FFFF)
    → HighOrUnset d.surrogate
    → Ends last (flush d item)
unfolding flush
flush-Ends last d item r o c h = elim (ℕ_discrete d.code_point unset) [
  | yes e ↦
      let test : (d.code_point == unset) ≡ true = ground arith in
      rw (test, flush) (λ _. record { phase = between_chars r e; high_half = h; open_end = o })
  | no ne ↦
      let test : (d.code_point == unset) ≡ false = ground arith in
      let (bytes, run, _, _, _) = utf32_to_utf8_lem d.code_point (ground arith) in
      rw (test, run, flush)
        (λ _. record { phase = between_chars r refl; high_half = h; open_end = o })
]

utf16_check_cases :
    (n : ℕ)
    → (utf16_check n ≡ bmp)
      ⊎ (((utf16_check n ≡ high) × IsHigh n) ⊎ ((utf16_check n ≡ low) × IsLow n))
unfolding utf16_check
utf16_check_cases n = elim (Bool-cases (leb 0xD800 n && leb n 0xDBFF)) [
  | inl e ↦ inr (inl (ground arith, ground arith))
  | inr e ↦ elim (Bool-cases (leb 0xDC00 n && leb n 0xDFFF)) [
    | inl f ↦ inr (inr (ground arith, ground arith))
    | inr f ↦ inl (ground arith)
  ]
]

settle_alone :
    (last : Bool) (d : Decoder) (item : List ℕ)
    → d.remaining ≡ 0
    → d.proper_ending ≡ false
    → (d.code_point ≡ unset) ⊎ (d.code_point < 2 ^ 16)
    → d.surrogate ≡ unset
    → Ends last (settle d item)
unfolding settle
settle_alone last d item r o c s =
    let alone : (d.surrogate == unset) ≡ true = ground arith in
    elim (Bool-cases (d.code_point == unset)) [
      | inl e ↦ rw (alone, e, settle) (flush-Ends last d item r o (inl (ground arith)) (inl s))
      | inr e ↦
          let small : d.code_point < 2 ^ 16 = ground arith in
          elim (utf16_check_cases (d.code_point % 2 ^ 16)) [
            | inl is_bmp ↦
                rw (alone, e, is_bmp, settle)
                  (flush-Ends last d item r o (inr (omega arith)) (inl s))
            | inr (inl (is_high, range)) ↦
                rw (alone, e, is_high, settle)
                  (flush-Ends last (record d { surrogate = d.code_point; code_point = unset }) item
                    r o (inl refl) (inr (omega arith)))
            | inr (inr (is_low, range)) ↦ rw (alone, e, is_low, settle) tt
          ]
    ]

settle_pending :
    (last : Bool) (d : Decoder) (item : List ℕ)
    → d.remaining ≡ 0
    → d.proper_ending ≡ false
    → IsHigh d.surrogate
    → Ends last (settle d item)
unfolding settle
settle_pending last d item r o half =
    let pending : (d.surrogate == unset) ≡ false = ground arith in
    elim (Bool-cases (d.code_point == unset)) [
      | inl e ↦ rw (pending, e, settle) tt
      | inr e ↦ elim (utf16_check_cases (d.code_point % 2 ^ 16)) [
        | inl is_bmp ↦ rw (pending, e, is_bmp, settle) tt
        | inr (inl (is_high, _)) ↦ rw (pending, e, is_high, settle) tt
        | inr (inr (is_low, range)) ↦
            let pair =
              utf16_surrogate_pair_to_code_point (d.surrogate % 2 ^ 16) (d.code_point % 2 ^ 16) in
            let small : pair ≤ 0x10FFFF =
              omega (arith, pair_code (d.surrogate % 2 ^ 16) (d.code_point % 2 ^ 16)) in
            rw (pending, e, is_low, settle)
              (flush-Ends last (record d { code_point = pair; surrogate = unset }) item r o
                (inr small) (inl refl))
      ]
    ]

settle-Ends :
    (last : Bool) (d : Decoder) (item : List ℕ)
    → Scanned d
    → HighOrUnset d.surrogate
    → d.remaining ≡ 0
    → d.proper_ending ≡ false
    → Ends last (settle d item)
settle-Ends last d item (going p) (inl s) r o =
    settle_alone last d item r o (inl (Phase-unset p (inl r))) s
settle-Ends last d item (complete _ small _) (inl s) r o =
    settle_alone last d item r o (inr small) s
settle-Ends last d item p (inr half) r o = settle_pending last d item r o half

Scanned-Phase :
    {d : Decoder} → Scanned d → d.proper_ending ≡ false → (d.remaining ≡ 0 → ⊥) → Phase d
Scanned-Phase (going p) o n = p
Scanned-Phase (complete r _ _) o n = absurd (n r)

-- A byte without the common part leaves a phase, unless it was the last.
step-Scanned :
    (last : Bool) (d : Decoder) (item : List ℕ)
    → Scanned d
    → HighOrUnset d.surrogate
    → (last ≡ false → d.proper_ending ≡ false)
    → Ends last (
        if d.remaining == 0 && not d.proper_ending && not false then settle d item else ok (some d))
step-Scanned last d item s half open_end =
    if_cases (Ends last) (d.remaining == 0 && not d.proper_ending && not false) (settle d item)
      (ok (some d)) (λ t. settle-Ends last d item s half (ground arith) (ground arith))
      (λ t f. record {
        phase = Scanned-Phase s (open_end f) (let o = open_end f in λ z. ground arith);
        high_half = half;
        open_end = open_end f;
      })

-- One byte behind the first keeps the phases, and never calls `std::terminate`.
step-Ends : (last : Bool) (d : Decoder) (ch : ℕ) → Inv d → Ends last (step false last d ch)
unfolding step
step-Ends last d ch v = elim (Option-cases (scan false last d ch)) [
  | inl e ↦ rw (e, step) tt
  | inr ((d', item), e) ↦
      let (s, half, open_end) = subst (ScanInv last) e (scan-ScanInv last d ch v) in
      rw (e, step) (step-Scanned last d' item s half open_end)
]

-- A result that is not an error.
abbrev Returns : Result (Option Decoder) → Type 0
Returns (ok o) = Unit {0}
Returns (err f) = ⊥

-- The next byte is the last one exactly when nothing is left for the loop.
run_next :
    (rest : List ℕ) (r : Result (Option Decoder)) (go : Decoder → Result (Option Decoder))
    → Ends (is_empty rest) r
    → ((d : Decoder) → (is_empty rest ≡ false → Inv d) → Returns (go d))
    → Returns (r >>= λ o. elim o [ none ↦ ok none | some d ↦ go d ])
run_next rest (err _) go h k = elim h [ ]
run_next rest (ok none) go h k = tt
run_next rest (ok (some d)) go h k = k d h

run-Returns :
    (rest : List ℕ) (d : Decoder) → (is_empty rest ≡ false → Inv d) → Returns (run false d rest)
unfolding run
run-Returns [] d v = tt
run-Returns (ch ∷ rest) d v =
    run_next rest (step false (is_empty rest) d ch) (λ d'. run false d' rest)
      (step-Ends (is_empty rest) d ch (v refl)) (λ d' v'. run-Returns rest d' v')

fresh-Inv : (value : List ℕ) → Inv (fresh value)
fresh-Inv value = record { phase = between_chars refl refl; high_half = inl refl; open_end = refl }

first-Ends : (value : List ℕ) (last : Bool) (ch : ℕ) → Ends last (step true last (fresh value) ch)
unfolding step scan
first-Ends value last ch = elim (Bool-cases (ch == 34)) [
  | inl e ↦ rw (e, step) (λ _. fresh-Inv value)
  | inr e ↦ rw (e, step) tt
]

decode-Returns : (value encoded : List ℕ) → Returns (run true (fresh value) encoded)
unfolding run
decode-Returns value [] = tt
decode-Returns value (ch ∷ rest) =
    run_next rest (step true (is_empty rest) (fresh value) ch) (λ d'. run false d' rest)
      (first-Ends value (is_empty rest) ch) (λ d' v'. run-Returns rest d' v')

Returns-ok : (r : Result (Option Decoder)) → Returns r → (o : Option Decoder) × (r ≡ ok o)
Returns-ok (err _) h = elim h [ ]
Returns-ok (ok o) h = (o, refl)

-- `decode` returns true or false on every list of bytes, whatever `utf8_value` has: it never calls `std::terminate`, neither
-- on a code point beyond 0x10FFFF nor elsewhere.
pub decode_total : (value encoded : List ℕ) → (r : Option (List ℕ)) × (decode value encoded ≡ ok r)
unfolding decode
decode_total value encoded =
    let (o, e) = Returns-ok (run true (fresh value) encoded) (decode-Returns value encoded) in
    (elim o [ none ↦ none | some d ↦ finish d ], rw (e, decode) refl)
