-- ===== src/Json/Lexer.antt =====
-- belt.pp/json.hpp: `value_string::parse`, the lexer of string tokens. An iterator is the list of
-- the bytes from it to the end; `none` is the result false, and `some rest` the result true with
-- `it_begin` moved to `rest`. Where the input ends inside the token `it_begin` does not move.
use belt_pp.Base.{
  ℕ, zero, suc, Bool, ◌&&◌, ◌||◌, List, [], ◌∷◌, Option, none, some, leb, ltb, ◌==◌, if◌then◌else◌,
}

unfoldable pub is_hex : ℕ → Bool
is_hex ch =
    (leb b'0' ch && leb ch b'9') || (leb b'a' ch && leb ch b'f') || (leb b'A' ch && leb ch b'F')

-- Where the loop over the bytes stands: at a byte, behind a backslash, or with `n` digits of a \u
-- escape to come.
pub data Mode : Type 0 where
  plain escaped : Mode
  digits : ℕ → Mode

-- What one byte does: end the token, refuse it, or go on.
pub data Verdict : Type 0 where
  close refuse : Verdict
  go : Mode → Verdict

unfoldable pub verdict : Mode → ℕ → Verdict
unfolding is_hex
verdict plain ch =
    if ch == 34
    then close
    else if ltb ch 0x20
    then refuse
    else if ch == 92
    then go escaped
    else go plain
verdict escaped ch =
    if ch == 34
      || ch == 92
      || ch == b'/'
      || ch == b'b'
      || ch == b'f'
      || ch == b'n'
      || ch == b'r'
      || ch == b't'
    then go plain
    else if ch == b'u'
    then go (digits 4)
    else refuse
verdict (digits zero) ch = refuse
verdict (digits (suc zero)) ch = if is_hex ch then go plain else refuse
verdict (digits (suc (suc n))) ch = if is_hex ch then go (digits (suc n)) else refuse

-- The loop, from the byte behind the opening quote on; `whole` is where `it_begin` stands.
unfoldable pub parse_from : List ℕ → Mode → List ℕ → Option (List ℕ)
parse_from whole mode [] = some whole
parse_from whole mode (ch ∷ rest) =
    let next = λ (m : Mode). parse_from whole m rest in
    elim (verdict mode ch) [ close ↦ some rest | refuse ↦ none | go m ↦ next m ]

-- The caller has `it_begin` before the end.
unfoldable pub parse : List ℕ → Option (List ℕ)
parse [] = none
parse (ch ∷ rest) = let body = parse_from (ch ∷ rest) plain rest in if ch == 34 then body else none
