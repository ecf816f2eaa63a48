-- ===== src/Sockets/PeerId/RoundTrip.antt =====
-- A peer id is read back as the id that it was made of.
use belt_pp.Base.{
  ℕ, zero, suc, ◌+◌, ◌-◌, ◌*◌, ◌/◌, ◌%◌, ◌^◌, ◌≤◌, ◌<◌, ◌≡◌, refl, sym, ap, ap₂, ◌∙◌, arith, List,
  [], ◌∷◌, ◌++◌, append_assoc, length, length-append, some, ltb, ◌==◌, true, false, leb, ok, dec_lt,
}
use belt_pp.Http.Percent.{digit}
use belt_pp.Http.Find.{Without, append-Without, find_first}
use belt_pp.Http.Split.{find}
use belt_pp.Http.Number.{
  digit_below, digits_from, unsigned_from, begins_digit, with_sign, strtoull_from, stoui64,
}
use belt_pp.Sockets.Channels.{IpAddress}
use belt_pp.Sockets.PeerId.{
  decimal_from, decimal, arrow, to_string, construct_peer_id, parse_peer_id,
}

digit_decimal : (d base : ℕ) → d < 10 → d < base → digit_below base (48 + d) ≡ some d
unfolding digit_below digit
digit_decimal d base small below = ground arith

digits_one :
    (base value count d : ℕ) (ys : List ℕ)
    → d < 10
    → d < base
    → digits_from base value count ((48 + d) ∷ ys)
      ≡ digits_from base (value * base + d) (suc count) ys
unfolding digits_from
digits_one base value count d ys small below =
    rw (digits_from, digit_decimal d base small below) refl

decimal_small : (fuel n : ℕ) → n < 10 → decimal_from (suc fuel) n ≡ (48 + n) ∷ []
unfolding decimal_from
decimal_small fuel n small = let t : ltb n 10 ≡ true = ground arith in rw t refl

decimal_large :
    (fuel n : ℕ)
    → 10 ≤ n
    → decimal_from (suc fuel) n ≡ decimal_from fuel (n / 10) ++ ((48 + n % 10) ∷ [])
unfolding decimal_from
decimal_large fuel n large = let t : ltb n 10 ≡ false = ground arith in rw t refl

-- The digits of a number are read as the number.
digits_decimal :
    (fuel n count : ℕ) (ys : List ℕ)
    → n < fuel
    → digits_from 10 0 count (decimal_from fuel n ++ ys)
      ≡ digits_from 10 n (count + length (decimal_from fuel n)) ys
digits_decimal zero n count ys enough = absurd (omega arith)
digits_decimal (suc fuel) n count ys enough = elim (dec_lt n 10) [
  | yes small ↦ rw (decimal_small fuel n small) (
      digits_one 10 0 count n ys small small
      ∙ ap₂ (λ v k. digits_from 10 v k ys) (let p : 0 * 10 + n ≡ n = omega arith in p)
          (let p : suc count ≡ count + 1 = omega arith in p))
  | no large ↦
      let last = (48 + n % 10) ∷ [] in
      let e = decimal_large fuel n (omega arith) in
      rw e (
        ap (digits_from 10 0 count) (append_assoc (decimal_from fuel (n / 10)) last ys)
        ∙ digits_decimal fuel (n / 10) count (last ++ ys) (omega arith)
        ∙ digits_one 10 (n / 10) (count + length (decimal_from fuel (n / 10))) (n % 10) ys
            (omega arith) (omega arith)
        ∙ ap (λ v. digits_from 10 v (suc (count + length (decimal_from fuel (n / 10)))) ys)
            (let p : n / 10 * 10 + n % 10 ≡ n = omega arith in p)
        ∙ ap (λ k. digits_from 10 n k ys)
            (omega (arith, length-append (decimal_from fuel (n / 10)) last)))
]

decimal-Without : (fuel n : ℕ) → n < fuel → Without b'<' (decimal_from fuel n)
decimal-Without zero n enough = absurd (omega arith)
decimal-Without (suc fuel) n enough = elim (dec_lt n 10) [
  | yes small ↦ rw (decimal_small fuel n small) ((omega arith), tt)
  | no large ↦ rw (decimal_large fuel n (omega arith)) (
      append-Without b'<' (decimal_from fuel (n / 10)) ((48 + n % 10) ∷ [])
        (decimal-Without fuel (n / 10) (omega arith)) ((omega arith), tt))
]

decimal_free : (n : ℕ) → Without b'<' (decimal n)
unfolding decimal
decimal_free n = decimal-Without (suc n) n (omega arith)

-- The first digit of a number other than 0 is not 0.
abbrev Leads : List ℕ → Type 0
Leads xs = (d : ℕ) × (others : List ℕ) × (xs ≡ (48 + suc d) ∷ others) × (suc d < 10)

decimal-Leads : (fuel n : ℕ) → 0 < n → n < fuel → Leads (decimal_from fuel n)
decimal-Leads zero n pos enough = absurd (omega arith)
decimal-Leads (suc fuel) zero pos enough = absurd (omega arith)
decimal-Leads (suc fuel) (suc n) pos enough = elim (dec_lt (suc n) 10) [
  | yes small ↦ (n, [], decimal_small fuel (suc n) small, small)
  | no large ↦
      let (d, others, whole, small) = decimal-Leads fuel (suc n / 10) (omega arith) (omega arith) in
      (
        d,
        others ++ ((48 + suc n % 10) ∷ []),
        decimal_large fuel (suc n) (omega arith) ∙ ap (λ xs. xs ++ ((48 + suc n % 10) ∷ [])) whole,
        small,
      )
]

unsigned_plain :
    (d : ℕ) (xs : List ℕ)
    → unsigned_from ((48 + suc d) ∷ xs) ≡ digits_from 10 0 0 ((48 + suc d) ∷ xs)
unfolding unsigned_from
unsigned_plain d [] = refl
unsigned_plain d (x ∷ xs) = let t : (48 + suc d == b'0') ≡ false = ground arith in rw t refl

with_sign_plain :
    (value count : ℕ) → value < 2 ^ 64 → with_sign 0 false (value, suc count) ≡ (value, suc count)
with_sign_plain value count bound =
    let t : (suc count == 0) ≡ false = ground arith in
    let u : ltb (2 ^ 64 - 1) value ≡ false = ground arith in
    rw (t, u) (ap (λ k. (value, k)) (let p : 0 + suc count ≡ suc count = omega arith in p))

-- A text whose first byte is a digit other than 0 is read in base 10, without a sign or white space.
stoui64_plain :
    (d : ℕ) (xs : List ℕ) (value count : ℕ)
    → suc d < 10
    → digits_from 10 0 0 ((48 + suc d) ∷ xs) ≡ (value, suc count)
    → value < 2 ^ 64
    → stoui64 ((48 + suc d) ∷ xs) ≡ (value, suc count)
unfolding stoui64 strtoull_from
stoui64_plain d xs value count small digits bound =
    let a : (48 + suc d == b' ') ≡ false = ground arith in
    let b : leb (48 + suc d) 13 ≡ false = ground arith in
    let c : leb 9 (48 + suc d) ≡ true = ground arith in
    let e : (48 + suc d == b'-') ≡ false = ground arith in
    let f : (48 + suc d == b'+') ≡ false = ground arith in
    rw (stoui64, strtoull_from, a, b, c, e, f)
      (ap (with_sign 0 false) (unsigned_plain d xs ∙ digits) ∙ with_sign_plain value count bound)

digits_stop :
    (base value count : ℕ) (ys : List ℕ) → digits_from base value count (b'<' ∷ ys) ≡ (value, count)
unfolding digits_from digit_below digit
digits_stop base value count ys = refl

stoui64_zero : (xs : List ℕ) → stoui64 (b'0' ∷ (b'<' ∷ xs)) ≡ (0, 1)
unfolding stoui64 strtoull_from unsigned_from digits_from digit_below digit begins_digit
stoui64_zero xs = refl

-- The number in front of a text is read, up to the text.
stoui64-decimal :
    (n : ℕ) (xs : List ℕ)
    → n < 2 ^ 64
    → stoui64 (decimal n ++ (b'<' ∷ xs)) ≡ (n, length (decimal n))
unfolding decimal
stoui64-decimal zero xs bound = rw (decimal_small 0 0 (omega arith)) (stoui64_zero xs)
stoui64-decimal (suc n) xs bound =
    let (d, others, whole, small) =
      decimal-Leads (suc (suc n)) (suc n) (omega arith) (omega arith) in
    let digits =
      digits_decimal (suc (suc n)) (suc n) 0 (b'<' ∷ xs) (omega arith)
      ∙ digits_stop 10 (suc n) (0 + length (decimal_from (suc (suc n)) (suc n))) xs in
    let count : 0 + length (decimal_from (suc (suc n)) (suc n)) ≡ suc (length others) =
      omega (arith, ap length whole) in
    let digits' : digits_from 10 0 0 ((48 + suc d) ∷ (others ++ (b'<' ∷ xs)))
        ≡ (suc n, suc (length others)) =
      ap (λ ys. digits_from 10 0 0 (ys ++ (b'<' ∷ xs))) (sym whole)
      ∙ digits
      ∙ ap (λ k. (suc n, k)) count in
    rw whole (stoui64_plain d (others ++ (b'<' ∷ xs)) (suc n) (length others) small digits' bound)

parse_found :
    (peer_id : List ℕ) (pos id : ℕ)
    → find arrow peer_id ≡ some pos
    → stoui64 peer_id ≡ (id, pos)
    → parse_peer_id peer_id ≡ ok id
unfolding parse_peer_id
parse_found peer_id pos id found read =
    let t : (pos == pos) ≡ true = ground arith in rw (parse_peer_id, found, read, t) refl

-- The id of a channel below 2 ^ 64 is read back from the peer id that is made of it, whatever the
-- addresses of the channel.
pub parse_peer_id-construct_peer_id :
    (id : ℕ) (bundle : IpAddress)
    → id < 2 ^ 64
    → parse_peer_id (construct_peer_id id bundle) ≡ ok id
unfolding construct_peer_id
parse_peer_id-construct_peer_id id bundle bound =
    parse_found (decimal id ++ (arrow ++ to_string bundle)) (length (decimal id)) id
      (find_first b'<' (b'=' ∷ (b'>' ∷ [])) (decimal id) (to_string bundle) (decimal_free id))
      (stoui64-decimal id (b'=' ∷ (b'>' ∷ to_string bundle)) bound)
