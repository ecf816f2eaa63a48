-- ===== src/Math.antt =====
-- belt.pp/math_expression.hpp: the lexers. `strtod` of the C library is an argument: how many bytes
-- it reads. It reads a text that a zero byte ends, so that it does not read beyond the end.
pub mod Reads
use belt_pp.Base.{
  ℕ, Bool, true, false, ◌||◌, ◌≤◌, length, List, [], ◌∷◌, Option, none, some, ◌==◌, if◌then◌else◌,
  drop,
}
use belt_pp.Parser.{Operator, nowhere}
use belt_pp.Parser.Read.{OperatorToken, Lexer, operator_read, value_read, discard_read}

-- `binary_operator_plus` and the four like it, by their character.
unfoldable pub binary_operator : ℕ → List ℕ → Option OperatorToken
binary_operator sign [] = none
binary_operator sign (ch ∷ rest) =
    if ch == sign
    then some (record { rest = rest; place_as_operator = true; right = 1; property = 1 })
    else none

unfoldable pub unary_operator_plus : List ℕ → Option OperatorToken
unary_operator_plus [] = none
unary_operator_plus (ch ∷ rest) =
    if ch == b'+'
    then some (record { rest = rest; place_as_operator = false; right = 1; property = 1 })
    else none

unfoldable pub bracket : List ℕ → Option OperatorToken
bracket [] = none
bracket (ch ∷ rest) =
    if ch == b'('
    then some (record { rest = rest; place_as_operator = false; right = 1; property = 4 })
    else if ch == b')'
    then some (record { rest = rest; place_as_operator = true; right = 0; property = 8 })
    else none

pub record Strtod : Type 0 where
  pub read : List ℕ → ℕ
  pub within : (input : List ℕ) → read input ≤ length input

unfoldable pub number : Strtod → List ℕ → Option (List ℕ)
number strtod input = if strtod.read input == 0 then none else some (drop (strtod.read input) input)

-- `find` on the characters of a set.
unfoldable pub is_in : List ℕ → ℕ → Bool
is_in [] ch = false
is_in (c ∷ set) ch = c == ch || is_in set ch

-- The loop of `discard_lexer_base::parse`, behind a first character of the set.
unfoldable pub skip_set : List ℕ → List ℕ → List ℕ
skip_set set [] = []
skip_set set (ch ∷ rest) = let more = skip_set set rest in if is_in set ch then more else ch ∷ rest

unfoldable pub discard_set : List ℕ → List ℕ → Option (List ℕ)
discard_set set [] = none
discard_set set (ch ∷ rest) = if is_in set ch then some (skip_set set rest) else none

abbrev pub white_space : List ℕ
white_space = b' ' ∷ 9 ∷ 13 ∷ 10 ∷ []

-- `lexers<T_types>::list`, each with its `rtt` and its priority.
abbrev pub math_lexers : Strtod → List Lexer
math_lexers strtod =
    discard_read (discard_set white_space)
    ∷ operator_read 1 1 (binary_operator b'+')
    ∷ operator_read 2 1 (binary_operator b'-')
    ∷ value_read 3 (number strtod)
    ∷ operator_read 4 2 (binary_operator b'*')
    ∷ operator_read 5 2 (binary_operator b'/')
    ∷ operator_read 6 3 (binary_operator b'^')
    ∷ operator_read 7 5 bracket
    ∷ operator_read 8 4 unary_operator_plus
    ∷ []

-- `default_operator`, with `get_default` of the multiplication.
abbrev pub multiplication : Option (ℕ × Operator)
multiplication =
    some (
      4,
      record { priority = 2; right = 1; property = 1; children_count = 0; last_child = nowhere },
    )
