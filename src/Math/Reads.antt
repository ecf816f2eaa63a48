-- ===== src/Math/Reads.antt =====
-- belt.pp/math_expression.hpp: every expression is parsed to an answer.
use belt_pp.Base.{
  ℕ, ◌+◌, ◌<◌, ◌≡◌, ◌^◌, refl, Bool, true, inl, inr, List, [], ◌∷◌, ◌==◌, Bool-cases, take, ok,
  arith,
}
use belt_pp.Parser.{Tree, blank_tree}
use belt_pp.Parser.Read.{ParseLimits, parse_full}
use belt_pp.Parser.Round.{AllLexers}
use belt_pp.Parser.Stream.{Accepted, parse_full_lem}
use belt_pp.Json.Reads.{
  IsSuffix, Suffixes, OperatorSuffixes, later, split_at, operator_read-IsLexer, value_read-IsLexer,
  discard_read-IsLexer,
}
use belt_pp.Json.Texts.{blank-IsTree}
use belt_pp.Math.{
  Strtod, binary_operator, unary_operator_plus, bracket, number, is_in, skip_set, discard_set,
  white_space, math_lexers, multiplication,
}

binary-suffix : (sign : ℕ) (input : List ℕ) → OperatorSuffixes input (binary_operator sign input)
unfolding binary_operator
binary-suffix sign [] = tt
binary-suffix sign (ch ∷ rest) = elim (Bool-cases (ch == sign)) [
  | inl e ↦ rw e (ch ∷ [], refl)
  | inr e ↦ rw e tt
]

unary-suffix : (input : List ℕ) → OperatorSuffixes input (unary_operator_plus input)
unfolding unary_operator_plus
unary-suffix [] = tt
unary-suffix (ch ∷ rest) = elim (Bool-cases (ch == b'+')) [
  | inl e ↦ rw e (ch ∷ [], refl)
  | inr e ↦ rw e tt
]

bracket-suffix : (input : List ℕ) → OperatorSuffixes input (bracket input)
unfolding bracket
bracket-suffix [] = tt
bracket-suffix (ch ∷ rest) = elim (Bool-cases (ch == b'(')) [
  | inl e ↦ rw e (ch ∷ [], refl)
  | inr e ↦ elim (Bool-cases (ch == b')')) [
    | inl f ↦ rw (e, f) (ch ∷ [], refl)
    | inr f ↦ rw (e, f) tt
  ]
]

number-suffix : (strtod : Strtod) (input : List ℕ) → Suffixes input (number strtod input)
unfolding number
number-suffix strtod input = elim (Bool-cases (strtod.read input == 0)) [
  | inl e ↦ rw e tt
  | inr e ↦ rw e (take (strtod.read input) input, split_at (strtod.read input) input)
]

skip_set-suffix : (set input : List ℕ) → IsSuffix (skip_set set input) input
unfolding skip_set
skip_set-suffix set [] = ([], refl)
skip_set-suffix set (ch ∷ rest) = elim (Bool-cases (is_in set ch)) [
  | inl e ↦ rw e (later ch (skip_set-suffix set rest))
  | inr e ↦ rw e ([], refl)
]

discard_set-suffix : (set input : List ℕ) → Suffixes input (discard_set set input)
unfolding discard_set
discard_set-suffix set [] = tt
discard_set-suffix set (ch ∷ rest) = elim (Bool-cases (is_in set ch)) [
  | inl e ↦ rw e (later ch (skip_set-suffix set rest))
  | inr e ↦ rw e tt
]

math_lexers-AllLexers : (strtod : Strtod) → AllLexers (math_lexers strtod)
math_lexers-AllLexers strtod = (
  discard_read-IsLexer (discard_set white_space) (discard_set-suffix white_space),
  (
    operator_read-IsLexer 1 1 (binary_operator b'+') (binary-suffix b'+'),
    (
      operator_read-IsLexer 2 1 (binary_operator b'-') (binary-suffix b'-'),
      (
        value_read-IsLexer 3 (number strtod) (number-suffix strtod),
        (
          operator_read-IsLexer 4 2 (binary_operator b'*') (binary-suffix b'*'),
          (
            operator_read-IsLexer 5 2 (binary_operator b'/') (binary-suffix b'/'),
            (
              operator_read-IsLexer 6 3 (binary_operator b'^') (binary-suffix b'^'),
              (
                operator_read-IsLexer 7 5 bracket bracket-suffix,
                (operator_read-IsLexer 8 4 unary_operator_plus unary-suffix, tt),
              ),
            ),
          ),
        ),
      ),
    ),
  ),
)

-- Whatever `strtod` reads, but no further than the end of the text, `parse_full` with the lexers of an arithmetic expression and the
-- multiplication between neighbours comes to an answer on every input, when the limit on the nodes
-- is below 2 ^ 32 - 18: it never reads outside the tree. When the answer is true, the text of the
-- tree is the whole input, there is a node, all nodes are complete, there is one node more than
-- children of all nodes, and the parser stands at the root.
pub parse_math_total :
    (strtod : Strtod) (limits : ParseLimits) (input : List ℕ)
    → limits.expression_size + 18 < 2 ^ 32
    → (t : Tree) × (b : Bool) × (parse_full limits multiplication
          (math_lexers strtod)
          blank_tree
          input
        ≡ ok (t, b))
      × (b ≡ true → Accepted blank_tree input t)
parse_math_total strtod limits input small =
    parse_full_lem limits multiplication (math_lexers strtod) blank_tree input
      (math_lexers-AllLexers strtod) refl small blank-IsTree (omega arith)
