-- ===== src/Json/Reads.antt =====
-- belt.pp/json.hpp: the lexers read from the front.
use belt_pp.Base.{
  ℕ, zero, suc, ◌-◌, ◌≡◌, refl, sym, ap, subst, ◌∙◌, inl, inr, Bool, true, false, ◌||◌, not, List,
  [], ◌∷◌, ◌++◌, append_assoc, Option, none, some, length, take, drop, ◌==◌, if◌then◌else◌,
  Bool-cases,
}
use belt_pp.Parser.{narrow, operator_node, value_node, operator, Operator}
use belt_pp.Parser.Place.{e_discard, e_operator, e_value}
use belt_pp.Parser.Read.{
  Lexed, refused, unfinished, token, stays, OperatorToken, operator_read, value_read, discard_read,
}
use belt_pp.Parser.Token.{check, check_from, check_number, number_from, no_digits}
use belt_pp.Parser.Helper.{FitsPlace}
use belt_pp.Parser.Round.{Reads, IsLexer, AllLexers}
use belt_pp.Json.Lexer.{Mode, plain, Verdict, close, refuse, go, verdict, parse, parse_from}
use belt_pp.Json.Lexers.{
  operator_comma, operator_colon, scope, value_bool, value_null, skip_spaces, is_space, discard,
  lexers,
}

abbrev pub IsSuffix : List ℕ → List ℕ → Type 0
IsSuffix rest input = (read : List ℕ) × (input ≡ read ++ rest)

pub later : (ch : ℕ) {rest input : List ℕ} → IsSuffix rest input → IsSuffix rest (ch ∷ input)
later ch (read, e) = (ch ∷ read, ap (λ l. ch ∷ l) e)

abbrev pub Suffixes : List ℕ → Option (List ℕ) → Type 0
Suffixes input none = Unit {0}
Suffixes input (some rest) = IsSuffix rest input

abbrev pub OperatorSuffixes : List ℕ → Option OperatorToken → Type 0
OperatorSuffixes input none = Unit {0}
OperatorSuffixes input (some o) = IsSuffix o.rest input

pub operator_read-IsLexer :
    (rtt priority : ℕ) (accept : List ℕ → Option OperatorToken)
    → ((input : List ℕ) → OperatorSuffixes input (accept input))
    → IsLexer (operator_read rtt priority accept)
unfolding operator_read
operator_read-IsLexer rtt priority accept suffixes input = go (accept input) (suffixes input)
  where
    place : (b : Bool) (i : Operator) → FitsPlace (if b then e_operator else e_value) (operator i)
    place true i = (i, refl)
    place false i = tt

    go :
        (o : Option OperatorToken)
        → OperatorSuffixes input o
        → Reads input (elim o as (λ _. Lexed) [
          | none ↦ refused
          | some o ↦
              if stays o.rest input
              then unfinished
              else token o.rest
                  (operator_node rtt priority o.right o.property)
                  (if o.place_as_operator then e_operator else e_value)
        ])
    go none s = tt
    go (some o) s = elim (Bool-cases (stays o.rest input)) [
      | inl e ↦ rw e tt
      | inr e ↦ rw e (s, refl, place o.place_as_operator _)
    ]

pub value_read-IsLexer :
    (rtt : ℕ) (accept : List ℕ → Option (List ℕ))
    → ((input : List ℕ) → Suffixes input (accept input))
    → IsLexer (value_read rtt accept)
unfolding value_read
value_read-IsLexer rtt accept suffixes input = go (accept input) (suffixes input)
  where
    go :
        (o : Option (List ℕ))
        → Suffixes input o
        → Reads input (elim o as (λ _. Lexed) [
          | none ↦ refused
          | some rest ↦
              if stays rest input
              then unfinished
              else token rest (value_node rtt (narrow (length input - length rest))) e_value
        ])
    go none s = tt
    go (some rest) s = elim (Bool-cases (stays rest input)) [
      | inl e ↦ rw e tt
      | inr e ↦ rw e (s, refl, tt)
    ]

pub discard_read-IsLexer :
    (accept : List ℕ → Option (List ℕ))
    → ((input : List ℕ) → Suffixes input (accept input))
    → IsLexer (discard_read accept)
unfolding discard_read
discard_read-IsLexer accept suffixes input = go (accept input) (suffixes input)
  where
    go :
        (o : Option (List ℕ))
        → Suffixes input o
        → Reads input (elim o as (λ _. Lexed) [
          | none ↦ refused
          | some rest ↦
              if stays rest input then unfinished else token rest (value_node 0 0) e_discard
        ])
    go none s = tt
    go (some rest) s = elim (Bool-cases (stays rest input)) [
      | inl e ↦ rw e tt
      | inr e ↦ rw e (s, refl, tt)
    ]

comma-suffix : (input : List ℕ) → OperatorSuffixes input (operator_comma input)
unfolding operator_comma
comma-suffix [] = tt
comma-suffix (ch ∷ rest) = elim (Bool-cases (ch == b',')) [
  | inl e ↦ rw e (ch ∷ [], refl)
  | inr e ↦ rw e tt
]

colon-suffix : (input : List ℕ) → OperatorSuffixes input (operator_colon input)
unfolding operator_colon
colon-suffix [] = tt
colon-suffix (ch ∷ rest) = elim (Bool-cases (ch == b':')) [
  | inl e ↦ rw e (ch ∷ [], refl)
  | inr e ↦ rw e tt
]

pub scope-suffix :
    (opening closing : ℕ) (input : List ℕ) → OperatorSuffixes input (scope opening closing input)
unfolding scope
scope-suffix opening closing [] = tt
scope-suffix opening closing (ch ∷ rest) = elim (Bool-cases (ch == opening)) [
  | inl e ↦ rw e (ch ∷ [], refl)
  | inr e ↦ elim (Bool-cases (ch == closing)) [
    | inl f ↦ rw (e, f) (ch ∷ [], refl)
    | inr f ↦ rw (e, f) tt
  ]
]

string-suffix_from :
    (whole : List ℕ) (mode : Mode) (input : List ℕ)
    → IsSuffix input whole
    → Suffixes whole (parse_from whole mode input)
unfolding parse_from
string-suffix_from whole mode [] s = ([], refl)
string-suffix_from whole mode (ch ∷ rest) (read, e) =
    let behind : IsSuffix rest whole =
      (read ++ (ch ∷ []), e ∙ sym (append_assoc read (ch ∷ []) rest)) in
    by_verdict (verdict mode ch) refl (λ m. string-suffix_from whole m rest behind) behind
  where
    by_verdict :
        (v : Verdict)
        → verdict mode ch ≡ v
        → ((m : Mode) → Suffixes whole (parse_from whole m rest))
        → IsSuffix rest whole
        → Suffixes whole (parse_from whole mode (ch ∷ rest))
    by_verdict close e next behind =
        let p : parse_from whole mode (ch ∷ rest) ≡ some rest = rw (e, parse_from) refl in
        subst (Suffixes whole) (sym p) behind
    by_verdict refuse e next behind =
        let p : parse_from whole mode (ch ∷ rest) ≡ none = rw (e, parse_from) refl in
        subst (Suffixes whole) (sym p) tt
    by_verdict (go m) e next behind =
        let p : parse_from whole mode (ch ∷ rest) ≡ parse_from whole m rest =
          rw (e, parse_from) refl in
        subst (Suffixes whole) (sym p) (next m)

string-suffix : (input : List ℕ) → Suffixes input (parse input)
unfolding parse
string-suffix [] = tt
string-suffix (ch ∷ rest) = elim (Bool-cases (ch == 34)) [
  | inl e ↦ rw e (string-suffix_from (ch ∷ rest) plain rest (ch ∷ [], refl))
  | inr e ↦ rw e tt
]

pub split_at : (k : ℕ) (xs : List ℕ) → xs ≡ take k xs ++ drop k xs
split_at zero xs = refl
split_at (suc k) [] = refl
split_at (suc k) (x ∷ xs) = ap (λ l. x ∷ l) (split_at k xs)

number-suffix :
    (stream_mode : Bool) (input : List ℕ) → Suffixes input (check_number stream_mode input)
unfolding check_number
number-suffix stream_mode input = go (number_from no_digits 0 0 input) refl
  where
    go :
        (p : ℕ × ℕ)
        → number_from no_digits 0 0 input ≡ p
        → Suffixes input (check_number stream_mode input)
    go (position, number_end) e = elim (Bool-cases (number_end == 0)) [
      | inl none_read ↦ elim (Bool-cases (position == length input)) [
        | inl f ↦ rw (e, none_read, f) ([], refl)
        | inr f ↦ rw (e, none_read, f) tt
      ]
      | inr some_read ↦ elim (Bool-cases (not stream_mode || not (position == length input))) [
        | inl f ↦ rw (e, some_read, f) (take number_end input, split_at number_end input)
        | inr f ↦ rw (e, some_read, f) ([], refl)
      ]
    ]

check-suffix_from :
    (whole rest str : List ℕ) → IsSuffix rest whole → Suffixes whole (check_from whole rest str)
unfolding check_from
check-suffix_from whole rest [] s = s
check-suffix_from whole [] (c ∷ str) s = ([], refl)
check-suffix_from whole (x ∷ rest) (c ∷ str) (read, e) =
    let next =
      check-suffix_from whole rest str
        (read ++ (x ∷ []), e ∙ sym (append_assoc read (x ∷ []) rest)) in
    elim (Bool-cases (x == c)) [ inl e ↦ rw e next | inr e ↦ rw e tt ]

check-suffix : (input str : List ℕ) → Suffixes input (check input str)
unfolding check
check-suffix input str = check-suffix_from input input str ([], refl)

bool-suffix : (input : List ℕ) → Suffixes input (value_bool input)
unfolding value_bool
bool-suffix input = go (check input (b't' ∷ b'r' ∷ b'u' ∷ b'e' ∷ [])) refl
  where
    go :
        (o : Option (List ℕ))
        → check input (b't' ∷ b'r' ∷ b'u' ∷ b'e' ∷ []) ≡ o
        → Suffixes input (value_bool input)
    go none e =
        let p : value_bool input ≡ check input (b'f' ∷ b'a' ∷ b'l' ∷ b's' ∷ b'e' ∷ []) =
          rw (e, value_bool) refl in
        subst (Suffixes input) (sym p) (check-suffix input (b'f' ∷ b'a' ∷ b'l' ∷ b's' ∷ b'e' ∷ []))
    go (some rest) e =
        let p : value_bool input ≡ check input (b't' ∷ b'r' ∷ b'u' ∷ b'e' ∷ []) =
          rw (e, value_bool) refl in
        subst (Suffixes input) (sym p) (check-suffix input (b't' ∷ b'r' ∷ b'u' ∷ b'e' ∷ []))

null-suffix : (input : List ℕ) → Suffixes input (value_null input)
unfolding value_null
null-suffix input = check-suffix input (b'n' ∷ b'u' ∷ b'l' ∷ b'l' ∷ [])

skip_spaces-suffix : (input : List ℕ) → IsSuffix (skip_spaces input) input
unfolding skip_spaces
skip_spaces-suffix [] = ([], refl)
skip_spaces-suffix (ch ∷ rest) = elim (Bool-cases (is_space ch)) [
  | inl e ↦ rw e (later ch (skip_spaces-suffix rest))
  | inr e ↦ rw e ([], refl)
]

discard-suffix : (input : List ℕ) → Suffixes input (discard input)
unfolding discard
discard-suffix [] = tt
discard-suffix (ch ∷ rest) = elim (Bool-cases (is_space ch)) [
  | inl e ↦ rw e (later ch (skip_spaces-suffix rest))
  | inr e ↦ rw e tt
]

-- Each of the JSON lexers, on every input, when it returns a token, has read a prefix of the input,
-- and its node has no children and is an operator if it is to be placed as one.
pub lexers-AllLexers : AllLexers lexers
lexers-AllLexers = (
  operator_read-IsLexer 0 1 operator_comma comma-suffix,
  (
    operator_read-IsLexer 1 3 (scope b'{' b'}') (scope-suffix b'{' b'}'),
    (
      operator_read-IsLexer 2 4 (scope b'[' b']') (scope-suffix b'[' b']'),
      (
        operator_read-IsLexer 3 2 operator_colon colon-suffix,
        (
          value_read-IsLexer 4 parse string-suffix,
          (
            value_read-IsLexer 5 (check_number true) (number-suffix true),
            (
              value_read-IsLexer 6 value_bool bool-suffix,
              (
                value_read-IsLexer 7 value_null null-suffix,
                (discard_read-IsLexer discard discard-suffix, tt),
              ),
            ),
          ),
        ),
      ),
    ),
  ),
)
