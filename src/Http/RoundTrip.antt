-- ===== src/Http/RoundTrip.antt =====
-- `percent_decode` against a reference encoder.
use belt_pp.Base.{
  ℕ, zero, suc, ◌+◌, ◌*◌, ◌/◌, ◌%◌, ◌^◌, ◌<◌, ◌≤◌, ◌≡◌, refl, ap, sym, ◌∙◌, Bool, true, false, List,
  [], ◌∷◌, ◌++◌, if◌then◌else◌, length, length-append, append-nil, append_assoc, arith, ok, some,
  if_cases, subst,
}
use mathlib.Core.Bool.{true≢false}
use belt_pp.Json.Unicode.{hex_digit}
use belt_pp.Http.Find.{Without, append-Without}
use belt_pp.Http.Percent.{digit, from_hex, from_hex_from, percent_loop, percent_decode}
use belt_pp.Http.Rounds.{escaped, round_good, round_free}

-- How a text is percent-encoded. Both choices are made for the text from a byte on, so that each
-- place of a text has its own: whether the byte is kept, and the case of the two digits 0 and 1.
pub record Coding : Type 0 where
  pub keep : List ℕ → Bool
  pub upper : List ℕ → ℕ → Bool

-- The two digits of the first byte of a text.
abbrev pub high_digit : Coding → ℕ → List ℕ → ℕ
high_digit how c cs = hex_digit (how.upper (c ∷ cs) 0) (c / 16)

abbrev pub low_digit : Coding → ℕ → List ℕ → ℕ
low_digit how c cs = hex_digit (how.upper (c ∷ cs) 1) (c % 16)

-- RFC 3986: a byte that is kept stands for itself, any other is `%` and two digits.
abbrev pub percent_encode : Coding → List ℕ → List ℕ
percent_encode how [] = []
percent_encode how (c ∷ cs) =
    let rest = percent_encode how cs in
    if how.keep (c ∷ cs) then c ∷ rest else b'%' ∷ high_digit how c cs ∷ low_digit how c cs ∷ rest

abbrev pub AreBytes : List ℕ → Type 0
AreBytes [] = Unit {0}
AreBytes (c ∷ cs) = (c < 2 ^ 8) × AreBytes cs

digit-hex_digit : (upper : Bool) (n : ℕ) → n < 16 → digit (hex_digit upper n) ≡ some n
unfolding digit
digit-hex_digit true n h = ground arith
digit-hex_digit false n h = ground arith

from_hex_from_nil : (r : ℕ) → from_hex_from r [] ≡ r
unfolding from_hex_from
from_hex_from_nil r = refl

from_hex_from_step :
    (r a x : ℕ) (rest : List ℕ)
    → digit a ≡ some x
    → from_hex_from r (a ∷ rest) ≡ from_hex_from ((r * 16 + x) % 2 ^ 64) rest
unfolding from_hex_from
from_hex_from_step r a x rest d = rw (d, from_hex_from) refl

from_hex_two :
    (a b x y : ℕ)
    → digit a ≡ some x
    → digit b ≡ some y
    → from_hex (a ∷ b ∷ []) ≡ ((0 * 16 + x) % 2 ^ 64 * 16 + y) % 2 ^ 64
unfolding from_hex
from_hex_two a b x y d1 d2 =
    from_hex_from_step 0 a x (b ∷ []) d1
    ∙ from_hex_from_step ((0 * 16 + x) % 2 ^ 64) b y [] d2
    ∙ from_hex_from_nil (((0 * 16 + x) % 2 ^ 64 * 16 + y) % 2 ^ 64)

from_hex-digits :
    (u w : Bool) (c : ℕ)
    → c < 2 ^ 8
    → from_hex (hex_digit u (c / 16) ∷ hex_digit w (c % 16) ∷ []) ≡ c
from_hex-digits u w c h =
    from_hex_two (hex_digit u (c / 16)) (hex_digit w (c % 16)) (c / 16) (c % 16)
      (digit-hex_digit u (c / 16) (omega arith)) (digit-hex_digit w (c % 16) (omega arith))
    ∙ omega arith

-- The round of an escape, when the rest decodes to `cs`.
escape_round :
    (u w : Bool) (fuel : ℕ) (result pre : List ℕ) (c : ℕ) (code cs : List ℕ)
    → c < 2 ^ 8
    → Without b'%' pre
    → ((f : ℕ) (r : List ℕ) → length code ≤ f → percent_loop f r code ≡ ok (r ++ cs))
    → length (escaped pre (hex_digit u (c / 16)) (hex_digit w (c % 16)) code) ≤ fuel
    → percent_loop fuel result (escaped pre (hex_digit u (c / 16)) (hex_digit w (c % 16)) code)
      ≡ ok (result ++ (pre ++ (c ∷ cs)))
escape_round u w zero result pre c code cs byte free rest h =
    let e = length-append pre (b'%' ∷ hex_digit u (c / 16) ∷ hex_digit w (c % 16) ∷ code) in
    absurd (omega arith)
escape_round u w (suc fuel) result pre c code cs byte free rest h =
    let e = length-append pre (b'%' ∷ hex_digit u (c / 16) ∷ hex_digit w (c % 16) ∷ code) in
    let value = from_hex-digits u w c byte in
    round_good fuel result pre (hex_digit u (c / 16)) (hex_digit w (c % 16)) code free (omega arith)
    ∙ rest fuel _ (omega arith)
    ∙ ap (λ n. ok (((result ++ pre) ++ (n ∷ [])) ++ cs)) (omega arith)
    ∙ ap ok (append_assoc (result ++ pre) (c ∷ []) cs ∙ append_assoc result pre (c ∷ cs))

-- An encoder that escapes every `%`.
abbrev pub EscapesPercent : Coding → Type 0
EscapesPercent how = (cs : List ℕ) → how.keep (b'%' ∷ cs) ≡ false

-- `pre` holds the bytes that stood for themselves since the last escape.
percent_loop-encode :
    (how : Coding) (cs : List ℕ) (fuel : ℕ) (result pre : List ℕ)
    → EscapesPercent how
    → AreBytes cs
    → Without b'%' pre
    → length (pre ++ percent_encode how cs) ≤ fuel
    → percent_loop fuel result (pre ++ percent_encode how cs) ≡ ok (result ++ (pre ++ cs))
percent_loop-encode how [] fuel result pre k bytes free h =
    let e = length-append pre [] in
    rw (append-nil pre) (round_free fuel result pre free (omega arith))
percent_loop-encode how (c ∷ cs) fuel result pre k (byte, bytes) free h =
    let code = percent_encode how cs in
    if_cases
      (λ t.
        length (pre ++ t) ≤ fuel
        → percent_loop fuel result (pre ++ t) ≡ ok (result ++ (pre ++ (c ∷ cs))))
      (how.keep (c ∷ cs)) (c ∷ code) (b'%' ∷ high_digit how c cs ∷ low_digit how c cs ∷ code)
      (λ e h'.
        let same = append_assoc pre (c ∷ []) code in
        ap (percent_loop fuel result) (sym same)
        ∙ percent_loop-encode how cs fuel result (pre ++ (c ∷ [])) k bytes
            (append-Without b'%' pre (c ∷ []) free
              (λ q. true≢false (sym e ∙ ap (λ x. how.keep (x ∷ cs)) q ∙ k cs), tt))
            (subst (λ t. length t ≤ fuel) (sym same) h')
        ∙ ap (λ t. ok (result ++ t)) (append_assoc pre (c ∷ []) cs))
      (λ e h'.
        escape_round (how.upper (c ∷ cs) 0) (how.upper (c ∷ cs) 1) fuel result pre c code cs byte
          free (λ f r b. percent_loop-encode how cs f r [] k bytes tt b) h')
      h

-- `percent_decode` gives back every text of bytes from any of its percent-encodings in which `%` is
-- escaped: each byte, at each place, is kept or escaped, with digits in upper or in lower case.
pub percent_decode-percent_encode :
    (how : Coding) (value : List ℕ)
    → EscapesPercent how
    → AreBytes value
    → percent_decode (percent_encode how value) ≡ ok value
unfolding percent_decode
percent_decode-percent_encode how value k bytes =
    percent_loop-encode how value (length (percent_encode how value)) [] [] k bytes tt (omega arith)
