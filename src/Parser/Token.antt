-- ===== src/Parser/Token.antt =====
-- belt.pp/parser.hpp: `check` and `check_number`. `none` is the result false, `some rest` the result
-- true with `it_begin` at `rest`.
use belt_pp.Base.{
  ℕ, suc, Bool, true, false, ◌&&◌, ◌||◌, not, List, [], ◌∷◌, Option, none, some, leb, ltb, ◌==◌,
  if◌then◌else◌, length, drop,
}

-- The loop of `check`; `whole` is where `it_begin` stands.
unfoldable pub check_from : List ℕ → List ℕ → List ℕ → Option (List ℕ)
check_from whole rest [] = some rest
check_from whole [] (c ∷ str) = some whole
check_from whole (x ∷ rest) (c ∷ str) =
    let more = check_from whole rest str in if x == c then more else none

unfoldable pub check : List ℕ → List ℕ → Option (List ℕ)
check input str = check_from input input str

-- `is_digit`.
unfoldable pub is_digit : ℕ → Bool → Bool
is_digit ch hex =
    (leb b'0' ch && leb ch b'9')
    || (hex && leb b'a' ch && leb ch b'f')
    || (hex && leb b'A' ch && leb ch b'F')

-- The variables `state`, `hex` and `dot`.
pub record Digits : Type 0 where
  pub state : ℕ
  pub hex : Bool
  pub dot : Bool

-- What a byte does to them and whether `it_number_end` moves behind it; `none` is `break`.
unfoldable pub digits_step : Digits → ℕ → Option (Digits × Bool)
digits_step d ch =
    if ltb d.state 1 && (ch == b'-' || ch == b'+')
    then some (record d { state = 1 }, false)
    else if ltb d.state 2 && ch == b'0'
    then some (record d { state = 2 }, true)
    else if d.state == 2 && (ch == b'x' || ch == b'X')
    then some (record d { state = 3; hex = true }, false)
    else if ltb d.state 5 && ch == b'.' && not d.dot
    then (if d.state == 2 || d.state == 4
        then some (record d { state = 4; dot = true }, true)
        else some (record d { state = 3; dot = true }, false))
    else if ltb d.state 5 && is_digit ch d.hex
    then some (record d { state = 4 }, true)
    else if d.state == 4 && (ch == b'e' || ch == b'E')
    then some (record d { state = 5 }, false)
    else if d.state == 5 && (ch == b'-' || ch == b'+')
    then some (record d { state = 6 }, false)
    else if (d.state == 6 || d.state == 5) && is_digit ch d.hex
    then some (d, true)
    else none

-- The loop: how far `it_copy` and `it_number_end` are from `it_begin` in the end.
unfoldable pub number_from : Digits → ℕ → ℕ → List ℕ → ℕ × ℕ
number_from d position number_end [] = (position, number_end)
number_from d position number_end (ch ∷ rest) =
    let go = λ (d' : Digits) (e : ℕ). number_from d' (suc position) e rest in
    elim (digits_step d ch) [
      | none ↦ (position, number_end)
      | some (d', moves) ↦ go d' (if moves then suc position else number_end)
    ]

abbrev pub no_digits : Digits
no_digits = record { state = 0; hex = false; dot = false }

unfoldable pub check_number : Bool → List ℕ → Option (List ℕ)
check_number stream_mode input =
    let (position, number_end) = number_from no_digits 0 0 input in
    if number_end == 0
    then (if position == length input then some input else none)
    else if not stream_mode || not (position == length input)
    then some (drop number_end input)
    else some input
