-- ===== src/Json/Phases.antt =====
-- The phases of `decode` between two bytes, and how the chain of tests on a byte keeps them.
use belt_pp.Base.{
  ℕ, ◌+◌, ◌-◌, ◌*◌, ◌%◌, ◌^◌, ◌<◌, ◌≡◌, refl, ◌≢◌, arith, ◌⊎◌, inl, inr, List, [], ◌∷◌, Option,
  some, none, true, false, Bool, ltb, ◌==◌, if◌then◌else◌, if_cases, Option-cases, ◌&&◌,
}
use belt_pp.Json.Decoder.{
  Decoder, scan, scan_escape, scan_hex, is_short_escape, short_escape, hex_value, unset,
}
use belt_pp.Json.Escapes.{IsHigh}

-- Between characters, behind a backslash, or before one of the four digits of a \u escape.
pub data Phase (d : Decoder) : Type 0 where
  between_chars : d.remaining ≡ 0 → d.code_point ≡ unset → Phase d
  behind_backslash : d.remaining ≡ 1 → d.index ≡ 1 → d.code_point ≡ unset → Phase d
  digit_1 : d.remaining ≡ 4 → d.index ≡ 2 → Phase d
  digit_2 : d.remaining ≡ 3 → d.index ≡ 3 → d.code_point < 2 ^ 4 → Phase d
  digit_3 : d.remaining ≡ 2 → d.index ≡ 4 → d.code_point < 2 ^ 8 → Phase d
  digit_4 : d.remaining ≡ 1 → d.index ≡ 5 → d.code_point < 2 ^ 12 → Phase d

abbrev pub HighOrUnset : ℕ → Type 0
HighOrUnset h = (h ≡ unset) ⊎ IsHigh h

pub record Inv (d : Decoder) : Type 0 where
  pub phase : Phase d
  pub high_half : HighOrUnset d.surrogate
  pub open_end : d.proper_ending ≡ false

-- What the chain of tests hands to the common part.
pub data Scanned (d : Decoder) : Type 0 where
  going : Phase d → Scanned d
  complete : d.remaining ≡ 0 → d.code_point < 2 ^ 16 → d.proper_ending ≡ false → Scanned d

-- Only the last byte can set `proper_ending`.
abbrev pub ScanInv : Bool → Option (Decoder × List ℕ) → Type 0
ScanInv last none = Unit {0}
ScanInv last (some (d, item)) =
    Scanned d × HighOrUnset d.surrogate × (last ≡ false → d.proper_ending ≡ false)

-- The state behind a digit `v`.
abbrev after_digit : Decoder → ℕ → Decoder
after_digit d v = record d {
  index = if d.remaining - 1 == 0 then 0 else d.index + 1;
  remaining = d.remaining - 1;
  code_point = if d.index == 2 then v else (d.code_point * 16 + v) % 2 ^ 32;
}

hex_value-lt : (ch : ℕ) {v : ℕ} → hex_value ch ≡ some v → v < 16
unfolding hex_value
hex_value-lt ch h = ground arith

scan_hex-ScanInv :
    (last : Bool) (d : Decoder) (ch : ℕ)
    → ((v : ℕ) → v < 16 → Scanned (after_digit d v))
    → HighOrUnset d.surrogate
    → d.proper_ending ≡ false
    → ScanInv last (scan_hex d ch)
unfolding scan_hex
scan_hex-ScanInv last d ch scanned half open_end = elim (Option-cases (hex_value ch)) [
  | inl e ↦ rw (e, scan_hex) tt
  | inr (v, e) ↦ rw (e, scan_hex) (scanned v (hex_value-lt ch e), half, λ _. open_end)
]

Phase-digit :
    (d : Decoder) (v : ℕ)
    → Phase d
    → d.proper_ending ≡ false
    → 0 < d.remaining
    → d.index ≢ 1
    → v < 16
    → Scanned (after_digit d v)
Phase-digit d v (between_chars r c) o pos ne lt = absurd (omega arith)
Phase-digit d v (behind_backslash r i c) o pos ne lt = absurd (ne i)
Phase-digit d v (digit_1 r i) o pos ne lt =
    going (digit_2 (omega arith) (ground arith) (ground arith))
Phase-digit d v (digit_2 r i c) o pos ne lt =
    going (digit_3 (omega arith) (ground arith) (ground arith))
Phase-digit d v (digit_3 r i c) o pos ne lt =
    going (digit_4 (omega arith) (ground arith) (ground arith))
Phase-digit d v (digit_4 r i c) o pos ne lt = complete (omega arith) (ground arith) o

pub Phase-unset : {d : Decoder} → Phase d → (d.remaining ≡ 0) ⊎ (d.index ≡ 1) → d.code_point ≡ unset
Phase-unset (between_chars r c) h = c
Phase-unset (behind_backslash r i c) h = c
Phase-unset (digit_1 r i) h = absurd (omega arith)
Phase-unset (digit_2 r i c) h = absurd (omega arith)
Phase-unset (digit_3 r i c) h = absurd (omega arith)
Phase-unset (digit_4 r i c) h = absurd (omega arith)

scan_escape-ScanInv :
    (last : Bool) (d : Decoder) (ch : ℕ) → Inv d → d.index ≡ 1 → ScanInv last (scan_escape d ch)
unfolding scan_escape
scan_escape-ScanInv last d ch v i =
    let c = Phase-unset v.phase (inr i) in
    let more : Option (Decoder × List ℕ) =
      if ch == b'u' then some (record d { index = d.index + 1; remaining = 4 }, []) else none in
    if_cases (ScanInv last) (is_short_escape ch)
      (some (record d { index = 0; remaining = 0 }, short_escape ch ∷ [])) more
      (λ _. (going (between_chars refl c), v.high_half, λ _. v.open_end))
      (λ _.
        if_cases (ScanInv last) (ch == b'u')
          (some (record d { index = d.index + 1; remaining = 4 }, [])) none
          (λ _. (going (digit_1 refl (omega arith)), v.high_half, λ _. v.open_end)) (λ _. tt))

-- A byte outside every escape.
scan_char :
    (d : Decoder) (last : Bool) (ch : ℕ)
    → d.remaining ≡ 0
    → Inv d
    → ScanInv last (
        if ch == 34
        then (if last then some (record d { proper_ending = true }, []) else none)
        else if ltb ch 0x20
        then none
        else some (d, ch ∷ []))
scan_char d last ch r v =
    let c = Phase-unset v.phase (inl r) in
    if_cases (ScanInv last) (ch == 34)
      (if last then some (record d { proper_ending = true }, []) else none)
      (if ltb ch 0x20 then none else some (d, ch ∷ []))
      (λ _.
        if_cases (ScanInv last) last (some (record d { proper_ending = true }, [])) none
          (λ t. (going (between_chars r c), v.high_half, λ f. cc)) (λ _. tt))
      (λ _.
        if_cases (ScanInv last) (ltb ch 0x20) none (some (d, ch ∷ [])) (λ _. tt)
          (λ _. (going (between_chars r c), v.high_half, λ _. v.open_end)))

pub scan-ScanInv :
    (last : Bool) (d : Decoder) (ch : ℕ) → Inv d → ScanInv last (scan false last d ch)
unfolding scan
scan-ScanInv last d ch v =
    if_cases (ScanInv last) (d.remaining == 0 && ch == 92)
      (some (record d { remaining = d.remaining + 1; index = 1 }, [])) _
      (λ t.
        let r : d.remaining ≡ 0 = ground arith in
        (
          going (behind_backslash (omega arith) refl (Phase-unset v.phase (inl r))),
          v.high_half,
          λ _. v.open_end,
        ))
      (λ _.
        if_cases (ScanInv last) (ltb 0 d.remaining && d.index == 1) _ _
          (λ t. scan_escape-ScanInv last d ch v (ground arith))
          (λ n.
            if_cases (ScanInv last) (ltb 0 d.remaining) _ _
              (λ t.
                let pos : 0 < d.remaining = ground arith in
                let ne : d.index ≢ 1 = ground arith in
                scan_hex-ScanInv last d ch (λ w lt. Phase-digit d w v.phase v.open_end pos ne lt)
                  v.high_half v.open_end)
              (λ t. scan_char d last ch (ground arith) v)))
