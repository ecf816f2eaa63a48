-- ===== src/Parser/Read.antt =====
-- belt.pp/parser.hpp: the bases of the lexers, `readers::parse`, `parse`, `parse_stream` and
-- `parse_full`. An iterator is the list of the bytes from it to the end.
use belt_pp.Base.{
  ℕ, zero, suc, ◌+◌, ◌-◌, Bool, true, false, ◌&&◌, ◌||◌, List, [], ◌∷◌, ◌++◌, Option, none, some,
  leb, ltb, ◌==◌, if◌then◌else◌, length, take, Result, ok, err, no_fuel, ◌>>=◌, is_empty,
}
use belt_pp.Parser.{Operator, Node, Tree, narrow, operator_node, value_node, tree_complete}
use belt_pp.Parser.Place.{PlaceAs, e_discard, e_value, e_operator, parse_helper}

-- What `internal_read` returns: error, attempt, or success with `it_begin`, `result` and `place_as`.
pub data Lexed : Type 0 where
  refused unfinished : Lexed
  token : List ℕ → Node → PlaceAs → Lexed

abbrev pub Lexer : Type 0
Lexer = List ℕ → Lexed

-- Whether an iterator is where another was.
abbrev pub stays : List ℕ → List ℕ → Bool
stays rest input = length rest == length input

-- What the `parse` of an operator sets; `none` is its result false.
pub record OperatorToken : Type 0 where
  pub rest : List ℕ
  pub place_as_operator : Bool
  pub right : ℕ
  pub property : ℕ

-- `operator_lexer_base::internal_read`.
unfoldable pub operator_read : ℕ → ℕ → (List ℕ → Option OperatorToken) → Lexer
operator_read rtt priority parse input = elim (parse input) [
  | none ↦ refused
  | some o ↦
      if stays o.rest input
      then unfinished
      else token o.rest (operator_node rtt priority o.right o.property)
          (if o.place_as_operator then e_operator else e_value)
]

-- `value_lexer_base::internal_read`.
unfoldable pub value_read : ℕ → (List ℕ → Option (List ℕ)) → Lexer
value_read rtt parse input = elim (parse input) [
  | none ↦ refused
  | some rest ↦
      if stays rest input
      then unfinished
      else token rest (value_node rtt (narrow (length input - length rest))) e_value
]

-- `discard_lexer_base_flexible::internal_read`; the result keeps what it was.
unfoldable pub discard_read : (List ℕ → Option (List ℕ)) → Lexer
discard_read parse input = elim (parse input) [
  | none ↦ refused
  | some rest ↦ if stays rest input then unfinished else token rest (value_node 0 0) e_discard
]

pub record ParseLimits : Type 0 where
  pub not_yet_parsed_size : ℕ
  pub depth : ℕ
  pub expression_size : ℕ
  pub buffer_size : ℕ

abbrev pub fits : ParseLimits → Tree → ℕ → Bool
fits limits t used =
    leb (length t.node_address) limits.depth
    && leb (length t.memory) limits.expression_size
    && leb (length t.expression_string + used) limits.buffer_size

-- The state of a call of `parse`: the tree, `it_begin` and the result.
abbrev pub Parsed : Type 0
Parsed = Tree × (List ℕ × Bool)

-- The bytes of a token that was placed go to `expression_string`.
abbrev pub taken : Tree → List ℕ → List ℕ → Parsed
taken t input rest = (
  record t { expression_string = t.expression_string ++ take (length input - length rest) input },
  (rest, true),
)

-- `readers::parse`, through the list of the lexers that are left.
unfoldable pub readers :
    ParseLimits → Option (ℕ × Operator) → List Lexer → Tree → List ℕ → Bool → Result Parsed
readers limits default_operator [] t input pending = ok (t, (input, pending))
readers limits default_operator (lexer ∷ more) t input pending =
    let next =
      λ (t' : Tree) (pending' : Bool). readers limits default_operator more t' input pending' in
    elim (lexer input) [
      | refused ↦ next t pending
      | unfinished ↦ next t (pending || leb (length input) limits.not_yet_parsed_size)
      | token rest node place ↦
          if stays rest input
          then next t pending
          else (parse_helper default_operator t node place >>= λ (t', placed).
              if placed && fits limits t' (length input - length rest)
              then ok (taken t' input rest)
              else next t' pending)
    ]

unfoldable pub parse :
    ParseLimits → Option (ℕ × Operator) → List Lexer → Tree → List ℕ → Result Parsed
parse limits default_operator lexers t input =
    if is_empty input
    then ok (t, (input, true))
    else readers limits default_operator lexers t input false

-- The loop of `parse_stream`; a round that goes on has moved `it_begin`.
unfoldable pub stream_loop :
    ℕ → ParseLimits → Option (ℕ × Operator) → List Lexer → Tree → List ℕ → Result Parsed
stream_loop zero limits default_operator lexers t input = err no_fuel
stream_loop (suc fuel) limits default_operator lexers t input =
    let again =
      λ (t' : Tree) (rest : List ℕ). stream_loop fuel limits default_operator lexers t' rest in
    parse limits default_operator lexers t input >>= λ (t', rest_code).
    if rest_code.1
    then (if stays rest_code.0 input then ok (t', (rest_code.0, true)) else again t' rest_code.0)
    else ok (t', ([], false))

unfoldable pub parse_stream :
    ParseLimits → Option (ℕ × Operator) → List Lexer → Tree → List ℕ → Result Parsed
parse_stream limits default_operator lexers t input =
    stream_loop (suc (length input)) limits default_operator lexers t input

-- `parse_full`: `guard` shortens the path behind the result.
unfoldable pub parse_full :
    ParseLimits → Option (ℕ × Operator) → List Lexer → Tree → List ℕ → Result (Tree × Bool)
parse_full limits default_operator lexers t input = do
  (t', (rest, code)) ←
      parse_stream (record limits { not_yet_parsed_size = 0 }) default_operator lexers t input
  complete ← (if code then tree_complete t' else ok false)
  ok (
    if ltb 1 (length t'.node_address)
        then record t' { node_address = take 1 t'.node_address }
        else t',
    complete,
  )
