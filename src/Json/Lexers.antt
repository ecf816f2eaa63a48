-- ===== src/Json/Lexers.antt =====
-- belt.pp/json.hpp: the lexers besides `value_string`, and the list of all.
use belt_pp.Base.{
  ℕ, Bool, true, false, ◌||◌, List, [], ◌∷◌, Option, none, some, ◌==◌, if◌then◌else◌,
}
use belt_pp.Parser.Read.{OperatorToken, Lexer, operator_read, value_read, discard_read}
use belt_pp.Parser.Token.{check, check_number}
use belt_pp.Json.Lexer.{parse}

abbrev pub operator_token : List ℕ → Bool → ℕ → ℕ → OperatorToken
operator_token rest place_as_operator right property = record {
  rest = rest;
  place_as_operator = place_as_operator;
  right = right;
  property = property;
}

-- The caller has `it_begin` before the end.
unfoldable pub operator_comma : List ℕ → Option OperatorToken
operator_comma [] = none
operator_comma (ch ∷ rest) = if ch == b',' then some (operator_token rest true 1 1) else none

unfoldable pub operator_colon : List ℕ → Option OperatorToken
operator_colon [] = none
operator_colon (ch ∷ rest) = if ch == b':' then some (operator_token rest true 1 0) else none

-- `scope_brace` and `scope_bracket`, by their two characters.
unfoldable pub scope : ℕ → ℕ → List ℕ → Option OperatorToken
scope opening closing [] = none
scope opening closing (ch ∷ rest) =
    if ch == opening
    then some (operator_token rest false 1 4)
    else if ch == closing
    then some (operator_token rest true 0 8)
    else none

unfoldable pub value_bool : List ℕ → Option (List ℕ)
value_bool input = elim (check input (b't' ∷ b'r' ∷ b'u' ∷ b'e' ∷ [])) [
  | some rest ↦ some rest
  | none ↦ check input (b'f' ∷ b'a' ∷ b'l' ∷ b's' ∷ b'e' ∷ [])
]

unfoldable pub value_null : List ℕ → Option (List ℕ)
value_null input = check input (b'n' ∷ b'u' ∷ b'l' ∷ b'l' ∷ [])

abbrev pub is_space : ℕ → Bool
is_space ch = ch == b' ' || ch == 9 || ch == 13 || ch == 10

-- The loop of `discard::parse`, behind a first space.
unfoldable pub skip_spaces : List ℕ → List ℕ
skip_spaces [] = []
skip_spaces (ch ∷ rest) = let more = skip_spaces rest in if is_space ch then more else ch ∷ rest

unfoldable pub discard : List ℕ → Option (List ℕ)
discard [] = none
discard (ch ∷ rest) = if is_space ch then some (skip_spaces rest) else none

-- `lexers<T_types>::list`, each with its `rtt`.
abbrev pub lexers : List Lexer
lexers =
    operator_read 0 1 operator_comma
    ∷ operator_read 1 3 (scope b'{' b'}')
    ∷ operator_read 2 4 (scope b'[' b']')
    ∷ operator_read 3 2 operator_colon
    ∷ value_read 4 parse
    ∷ value_read 5 (check_number true)
    ∷ value_read 6 value_bool
    ∷ value_read 7 value_null
    ∷ discard_read discard
    ∷ []
