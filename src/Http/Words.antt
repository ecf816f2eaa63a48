-- ===== src/Http/Words.antt =====
-- Texts with the reserved characters of an URL escaped.
use belt_pp.Base.{
  ℕ, ◌/◌, ◌%◌, ◌<◌, ◌≡◌, ◌≢◌, refl, ap, sym, ◌∙◌, Bool, true, false, ◌||◌, List, [], ◌∷◌, map,
  if_cases, ◌==◌, arith, ok, is_empty,
}
use mathlib.Core.Bool.{true≢false}
use belt_pp.Json.Unicode.{hex_digit}
use belt_pp.Http.Find.{Without, append-Without}
use belt_pp.Http.RoundTrip.{
  Coding, high_digit, low_digit, percent_encode, AreBytes, percent_decode-percent_encode,
}
use belt_pp.Http.Join.{IsPart, AreParts, joined}
use belt_pp.Http.Request.{Text, decode_all}

abbrev pub is_reserved : ℕ → Bool
is_reserved c = c == b'%' || c == b'/' || c == b'?' || c == b'#' || c == b'&' || c == b'='

-- An encoder that escapes at least the reserved characters.
abbrev pub EscapesReserved : Coding → Type 0
EscapesReserved how = (c : ℕ) (cs : Text) → is_reserved c ≡ true → how.keep (c ∷ cs) ≡ false

abbrev pub IsWord : Text → Type 0
IsWord w = AreBytes w × (is_empty w ≡ false)

abbrev pub AreWords : List Text → Type 0
AreWords [] = Unit {0}
AreWords (w ∷ ws) = IsWord w × AreWords ws

hex_digit-plain : (upper : Bool) (c n : ℕ) → is_reserved c ≡ true → n < 16 → hex_digit upper n ≢ c
hex_digit-plain true c n r h = ground arith
hex_digit-plain false c n r h = ground arith

-- No reserved character but `%` is left in an encoded text.
pub percent_encode-Without :
    (how : Coding) (c : ℕ) (w : Text)
    → EscapesReserved how
    → is_reserved c ≡ true
    → c ≢ b'%'
    → AreBytes w
    → Without c (percent_encode how w)
percent_encode-Without how c [] k r ne h = tt
percent_encode-Without how c (x ∷ w) k r ne (byte, h) =
    let rest = percent_encode-Without how c w k r ne h in
    if_cases (Without c) (how.keep (x ∷ w)) (x ∷ percent_encode how w)
      (b'%' ∷ high_digit how x w ∷ low_digit how x w ∷ percent_encode how w)
      (λ e. (λ q. true≢false (sym e ∙ ap (λ y. how.keep (y ∷ w)) q ∙ k c w r), rest))
      (λ e. (
        λ q. ne (sym q),
        (
          hex_digit-plain (how.upper (x ∷ w) 0) c (x / 16) r (omega arith),
          (hex_digit-plain (how.upper (x ∷ w) 1) c (x % 16) r (omega arith), rest),
        ),
      ))

percent_encode_some :
    (how : Coding) (w : Text) → is_empty w ≡ false → is_empty (percent_encode how w) ≡ false
percent_encode_some how [] h = h
percent_encode_some how (x ∷ w) h =
    if_cases (λ t. is_empty t ≡ false) (how.keep (x ∷ w)) (x ∷ percent_encode how w)
      (b'%' ∷ high_digit how x w ∷ low_digit how x w ∷ percent_encode how w) (λ _. refl) (λ _. refl)

pub word-IsPart :
    (how : Coding) (c : ℕ) (w : Text)
    → EscapesReserved how
    → is_reserved c ≡ true
    → c ≢ b'%'
    → IsWord w
    → IsPart c (percent_encode how w)
word-IsPart how c w k r ne (bytes, some_byte) =
    (percent_encode_some how w some_byte, percent_encode-Without how c w k r ne bytes)

pub words-AreParts :
    (how : Coding) (c : ℕ) (ws : List Text)
    → EscapesReserved how
    → is_reserved c ≡ true
    → c ≢ b'%'
    → AreWords ws
    → AreParts c (map (percent_encode how) ws)
words-AreParts how c [] k r ne h = tt
words-AreParts how c (w ∷ ws) k r ne (h, hs) =
    (word-IsPart how c w k r ne h, words-AreParts how c ws k r ne hs)

pub joined-Without :
    (c d : ℕ) (p : Text) (ps : List Text)
    → c ≢ d
    → IsPart d p
    → AreParts d ps
    → Without d (joined c p ps)
joined-Without c d p [] ne h hs = h.1
joined-Without c d p (q ∷ ps) ne h (hq, hs) =
    append-Without d p (c ∷ joined c q ps) h.1 (ne, joined-Without c d q ps ne hq hs)

pub joined_some :
    (c : ℕ) (p : Text) (ps : List Text) → is_empty p ≡ false → is_empty (joined c p ps) ≡ false
joined_some c p [] h = h
joined_some c [] (q ∷ ps) h = absurd (true≢false h)
joined_some c (x ∷ p) (q ∷ ps) h = refl

pub decode_all-encode :
    (how : Coding) (ws : List Text)
    → EscapesReserved how
    → AreWords ws
    → decode_all (map (percent_encode how) ws) ≡ ok ws
unfolding decode_all
decode_all-encode how [] k h = refl
decode_all-encode how (w ∷ ws) k (h, hs) =
    rw
      (
        percent_decode-percent_encode how w (λ cs. k b'%' cs refl) h.0,
        decode_all-encode how ws k hs,
      )
      refl
