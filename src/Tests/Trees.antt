-- ===== src/Tests/Trees.antt =====
-- belt.pp/parser.hpp with the JSON lexers on concrete texts.
use belt_pp.Base.{
  ℕ, ◌≡◌, ◌⊎◌, refl, arith, Bool, true, false, List, [], ◌∷◌, none, some, length, get_elem?, ok,
  is_empty,
}
use belt_pp.Parser.{blank_tree, Tree, Node, operator_node, value_node, tree_complete, node_complete}
use belt_pp.Parser.Place.{e_value, parse_helper}
use belt_pp.Parser.Read.{ParseLimits, Parsed, parse_stream, parse_full}
use belt_pp.Parser.Helper.{Keeps, one-IsTree, parse_helper_lem}
use belt_pp.Parser.Complete.{AllComplete, tree_complete_lem}
use belt_pp.Parser.Stream.{Streamed, Accepted, parse_stream_lem}
use belt_pp.Json.Lexers.{lexers}
use belt_pp.Json.Reads.{lexers-AllLexers}
use belt_pp.Json.Encoder.{encode, encode_byte}
use belt_pp.Json.Decoder.{decode}
use belt_pp.Json.Texts.{string_tree, blank-IsTree, parse_full_total, parse_full-encode}

abbrev wide : ParseLimits
wide = record { not_yet_parsed_size = 100; depth = 50; expression_size = 100; buffer_size = 100 }

-- ["a",12]
abbrev array : List ℕ
array = b'[' ∷ 34 ∷ b'a' ∷ 34 ∷ b',' ∷ b'1' ∷ b'2' ∷ b']' ∷ []

-- The first byte of it, read.
abbrev array_begun : Tree
array_begun = record {
  node_address = 0 ∷ [];
  memory = operator_node 2 4 1 4 ∷ [];
  expression_string = b'[' ∷ [];
}

parse_helper_lem_example :
    Keeps array_begun 2 (parse_helper none array_begun (value_node 4 3) e_value)
parse_helper_lem_example =
    parse_helper_lem none array_begun (value_node 4 3) e_value
      (one-IsTree (b'[' ∷ []) (operator_node 2 4 1 4) refl) tt refl tt (omega arith)

tree_complete_lem_example :
    (b : Bool) × (tree_complete array_begun ≡ ok b)
    × (b ≡ true → (is_empty array_begun.memory ≡ false) × AllComplete array_begun)
    × (b ≡ false
        → (is_empty array_begun.memory ≡ true)
          ⊎ ((a : ℕ) × (n : Node) × (get_elem? array_begun.memory a ≡ some n)
              × (node_complete n ≡ false)))
tree_complete_lem_example =
    tree_complete_lem array_begun (one-IsTree (b'[' ∷ []) (operator_node 2 4 1 4) refl)

parse_stream_lem_example :
    (p : Parsed) × (parse_stream wide none lexers blank_tree array ≡ ok p)
    × Streamed wide blank_tree array (length lexers) p
parse_stream_lem_example =
    parse_stream_lem wide none lexers blank_tree array lexers-AllLexers tt (omega arith)
      blank-IsTree (omega arith)

parse_full_total_example :
    (t : Tree) × (b : Bool) × (parse_full wide none lexers blank_tree array ≡ ok (t, b))
    × (b ≡ true → Accepted blank_tree array t)
parse_full_total_example = parse_full_total wide array (omega arith)

abbrev text : List ℕ
text = b'a' ∷ 34 ∷ 10 ∷ []

text_bytes : length (encode text) ≡ 7
unfolding encode encode_byte
text_bytes = refl

parse_full-encode_example :
    (parse_full wide none lexers blank_tree (encode text) ≡ ok (string_tree (encode text), true))
    × (decode (b'x' ∷ []) (string_tree (encode text)).expression_string ≡ ok (some (b'x' ∷ text)))
parse_full-encode_example =
    parse_full-encode (b'x' ∷ []) text wide
      (omega arith, omega arith, omega (arith, text_bytes), omega (arith, text_bytes))
