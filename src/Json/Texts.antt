-- ===== src/Json/Texts.antt =====
-- belt.pp/json.hpp and belt.pp/parser.hpp together: the text of a string through the parser.
use belt_pp.Base.{
  ℕ, suc, ◌+◌, ◌-◌, ◌<◌, ◌≤◌, ◌^◌, ◌≡◌, refl, sym, ap, subst, ◌∙◌, Bool, true, false, List, [], ◌∷◌,
  ◌++◌, append-nil, Option, none, some, length, take, arith, ◌==◌, take_all, ok,
}
use belt_pp.Parser.{
  nowhere, narrow, value_node, Operator, blank_tree, value, Node, Tree, tree_complete, tree_empty,
  complete_below, node_complete, item2, node_at, create,
}
use belt_pp.Parser.Place.{PlaceAs, e_value, parse_helper}
use belt_pp.Parser.Read.{
  Lexer, refused, token, taken, ParseLimits, fits, stays, readers, parse, stream_loop, parse_stream,
  parse_full, operator_read, value_read,
}
use belt_pp.Parser.Valid.{IsTree}
use belt_pp.Parser.Stream.{Accepted, parse_full_lem}
use belt_pp.Json.Reads.{lexers-AllLexers}
use belt_pp.Json.Encoder.{encode, encode_bytes}
use belt_pp.Json.Decoder.{decode}
use belt_pp.Json.RoundTrip.{decode-encode}
use belt_pp.Json.Token.{parse-encode}
use belt_pp.Json.Lexer as Strings
use belt_pp.Json.Lexers.{lexers, operator_comma, operator_colon, scope}

-- A tree of one string.
abbrev pub string_tree : List ℕ → Tree
string_tree text = record {
  node_address = 0 ∷ [];
  memory = record { rtt = 4; previous_peer = nowhere; info = value 0 (length text) } ∷ [];
  expression_string = text;
}

whole : (v : List ℕ) → Strings.parse (encode v) ≡ some []
whole v = ap Strings.parse (sym (append-nil (encode v))) ∙ parse-encode v []

quoted : (v : List ℕ) → (rest : List ℕ) × (encode v ≡ 34 ∷ rest)
unfolding encode
quoted v = (encode_bytes v ++ (34 ∷ []), refl)

-- A lexer that refuses, and one whose token is placed.
readers_past :
    (limits : ParseLimits) (d : Option (ℕ × Operator)) (lexer : Lexer) (more : List Lexer)
    (t : Tree) (input : List ℕ) (pending : Bool)
    → lexer input ≡ refused
    → readers limits d (lexer ∷ more) t input pending ≡ readers limits d more t input pending
unfolding readers
readers_past limits d lexer more t input pending e = rw e refl

readers_at :
    (limits : ParseLimits) (d : Option (ℕ × Operator)) (lexer : Lexer) (more : List Lexer)
    (t t' : Tree) (input rest : List ℕ) (pending : Bool) (n : Node) (place : PlaceAs)
    → lexer input ≡ token rest n place
    → stays rest input ≡ false
    → parse_helper d t n place ≡ ok (t', true)
    → fits limits t' (length input - length rest) ≡ true
    → readers limits d (lexer ∷ more) t input pending ≡ ok (taken t' input rest)
unfolding readers
readers_at limits d lexer more t t' input rest pending n place e s h f = rw (e, s, h, f) refl

comma_past : (body : List ℕ) → operator_read 0 1 operator_comma (34 ∷ body) ≡ refused
unfolding operator_read operator_comma
comma_past body = refl

brace_past : (body : List ℕ) → operator_read 1 3 (scope b'{' b'}') (34 ∷ body) ≡ refused
unfolding operator_read scope
brace_past body = refl

bracket_past : (body : List ℕ) → operator_read 2 4 (scope b'[' b']') (34 ∷ body) ≡ refused
unfolding operator_read scope
bracket_past body = refl

colon_past : (body : List ℕ) → operator_read 3 2 operator_colon (34 ∷ body) ≡ refused
unfolding operator_read operator_colon
colon_past body = refl

value_at :
    (accept : List ℕ → Option (List ℕ)) (text : List ℕ)
    → accept text ≡ some []
    → 0 < length text
    → length text < 2 ^ 32
    → value_read 4 accept text ≡ token [] (value_node 4 (length text)) e_value
unfolding value_read
value_at accept text e long small =
    let moved : (0 == length text) ≡ false = ground arith in
    let size : narrow (length text - 0) ≡ length text = omega arith in
    rw (value_read, e, moved, size) refl

created :
    (n : ℕ)
    → parse_helper none blank_tree (value_node 4 n) e_value
      ≡ ok (
        record {
          node_address = 0 ∷ [];
          memory = record { rtt = 4; previous_peer = nowhere; info = value 0 n } ∷ [];
          expression_string = [];
        },
        true,
      )
unfolding parse_helper tree_empty create
created n = refl

abbrev pub Roomy : ParseLimits → ℕ → Type 0
Roomy limits size =
    (1 ≤ limits.depth)
    × (1 ≤ limits.expression_size)
    × (size ≤ limits.buffer_size)
    × (size < 2 ^ 32)

string_round :
    (limits : ParseLimits) (body : List ℕ)
    → Strings.parse (34 ∷ body) ≡ some []
    → Roomy limits (length (34 ∷ body))
    → parse limits none lexers blank_tree (34 ∷ body) ≡ ok (string_tree (34 ∷ body), ([], true))
unfolding parse
string_round limits body lexed (d, s, b, small) =
    let text : List ℕ = 34 ∷ body in
    let t1 : (0 == length text) ≡ false = ground arith in
    let n = length text in
    let all : n - 0 ≡ n = omega arith in
    readers_past limits none _ _ blank_tree text false (comma_past body)
    ∙ readers_past limits none _ _ blank_tree text false (brace_past body)
    ∙ readers_past limits none _ _ blank_tree text false (bracket_past body)
    ∙ readers_past limits none _ _ blank_tree text false (colon_past body)
    ∙ readers_at limits none _ _ blank_tree _ text [] false (value_node 4 n) e_value
        (value_at Strings.parse text lexed (omega arith) small) t1 (created n) (ground arith)
    ∙ ap (λ l. ok (record (string_tree text) { expression_string = l }, ([], true)))
        (ap (λ k. take k text) all ∙ take_all text)

nothing_left :
    (limits : ParseLimits) (t : Tree) (n : ℕ)
    → stream_loop (suc n) limits none lexers t [] ≡ ok (t, ([], true))
unfolding stream_loop parse
nothing_left limits t n = refl

whole_complete : (text : List ℕ) → tree_complete (string_tree text) ≡ ok true
unfolding tree_complete tree_empty complete_below item2 node_at node_complete
whole_complete text = refl

string_whole :
    (limits : ParseLimits) (body : List ℕ)
    → Strings.parse (34 ∷ body) ≡ some []
    → Roomy limits (length (34 ∷ body))
    → parse_full limits none lexers blank_tree (34 ∷ body) ≡ ok (string_tree (34 ∷ body), true)
unfolding parse_full parse_stream stream_loop
string_whole limits body lexed room =
    let limits' : ParseLimits = record limits { not_yet_parsed_size = 0 } in
    let first = string_round limits' body lexed room in
    let last = nothing_left limits' (string_tree (34 ∷ body)) (length body) in
    let moved : (0 == suc (length body)) ≡ false = ground arith in
    rw (first, moved, last, whole_complete (34 ∷ body)) refl

pub blank-IsTree : IsTree blank_tree
blank-IsTree = record {
  path = tt;
  rooted = refl;
  counted = λ e. absurd (cc);
  settled = λ a n e. absurd (cc);
}

-- `parse_full` with the JSON lexers comes to an answer on every input, when the limit on the nodes is
-- below 2 ^ 32 - 18: it never reads outside the tree. When the answer is true, the text of the tree
-- is the whole input, there is a node, all nodes are complete, there is one node more than children
-- of all nodes, and the parser stands at the root.
pub parse_full_total :
    (limits : ParseLimits) (input : List ℕ)
    → limits.expression_size + 18 < 2 ^ 32
    → (t : Tree) × (b : Bool) × (parse_full limits none lexers blank_tree input ≡ ok (t, b))
      × (b ≡ true → Accepted blank_tree input t)
parse_full_total limits input small =
    parse_full_lem limits none lexers blank_tree input lexers-AllLexers tt small blank-IsTree
      (omega arith)

-- When the limits leave room for it, `parse_full` with the JSON lexers accepts what `encode` writes for
-- a string of bytes, as a tree of one string token, and from the text of that tree `decode` puts
-- the string behind what `utf8_value` has.
pub parse_full-encode :
    (o v : List ℕ) (limits : ParseLimits)
    → Roomy limits (length (encode v))
    → (parse_full limits none lexers blank_tree (encode v) ≡ ok (string_tree (encode v), true))
      × (decode o (string_tree (encode v)).expression_string ≡ ok (some (o ++ v)))
parse_full-encode o v limits room =
    let (body, e) = quoted v in
    (
      subst (λ text. parse_full limits none lexers blank_tree text ≡ ok (string_tree text, true))
          (sym e)
          (string_whole limits body (ap Strings.parse (sym e) ∙ whole v)
            (subst (λ text. Roomy limits (length text)) e room)),
      decode-encode o v,
    )
